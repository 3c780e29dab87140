-- ===== src/Requests/Isolation.antt =====
-- mcp/toolbridge_mcp/utils/requests.py: which entries of the caches a call may change.
use toolbridge_api.Prelude.{
  ℕ, String, ◌≡◌, ◌≢◌, refl, ap, ◌∙◌, inl, inr, false, Option, none, some, ◌==◌, eq_iff, Bool-cases,
  Option-cases,
}
use toolbridge_api.Errors.{Exc, Result, ok, err}
use toolbridge_api.Dict.{Dict, lookup, insert, lookup-insert}
use toolbridge_api.Notes.Types.{Json}
use toolbridge_api.Requests.Transport.{tenant_for, handle_async_request}
use toolbridge_api.Requests.Types.{
  AccessToken, Settings, Method, Request, Http, Jose, World, truthy, Action, proceed, lift, reraise,
}
use toolbridge_api.Requests.Exchange.{exchanged, exchange_request, exchange_for_backend_jwt}
use toolbridge_api.Requests.Tenant.{resolve_tenant}
use toolbridge_api.Requests.Calls.{
  tenant_error, exchange_error, session_failed, new_tenant, refresh_jwt, resolve_for, resolve_with,
  ensure_tenant_resolved, header_for, get_backend_auth_header, session_request, ensure_session,
  call,
}

-- the user whose entries a call may change: the subject of the token, if it has one
abbrev pub caller : Result AccessToken → Option String
caller (ok t) = truthy t.sub
caller (err e) = none

-- both caches have the same entry of the user `j`
abbrev pub SameEntry : {S : Type 0} → String → World S → World S → Type 0
SameEntry j w w' =
    (lookup j w'.tenant_cache ≡ lookup j w.tenant_cache)
    × (lookup j w'.jwt_cache ≡ lookup j w.jwt_cache)

cache-SameEntry :
    (j user_id value : String) (d : Dict String)
    → (user_id == j) ≡ false
    → lookup j (insert user_id value d) ≡ lookup j d
cache-SameEntry j user_id value d n = lookup-insert user_id j value d ∙ rw n

module _ {S : Type 0} (j : String) where
  pub proceed-SameEntry :
      {A B : Type 0} (w : World S) (r : Result A × World S) (f : A → Action S B)
      → SameEntry j w r.1
      → ((a : A) (v : World S) → SameEntry j v (f a v).1)
      → SameEntry j w (proceed r f).1
  proceed-SameEntry w (ok a, v) f s k = ((k a v).0 ∙ s.0, (k a v).1 ∙ s.1)
  proceed-SameEntry w (err e, v) f s k = s

  reraise-SameEntry :
      {A : Type 0} (f : Exc → Exc) (w : World S) (r : Result A × World S)
      → SameEntry j w r.1
      → SameEntry j w (reraise f r).1
  reraise-SameEntry f w (ok a, v) s = s
  reraise-SameEntry f w (err e, v) s = s

module _ (http : Http) (jose : Jose) (settings : Settings) (now : ℕ) (token : Result AccessToken)
    (j : String) where
  handle-SameEntry :
      (r : Request) (w : World http.State) → SameEntry j w (handle_async_request http jose r w).1
  unfolding handle_async_request
  handle-SameEntry r w = elim (Option-cases (tenant_for http jose r w)) [
    | inl e ↦ rw (e, handle_async_request) (refl, refl)
    | inr (x, e) ↦ rw (e, handle_async_request) (refl, refl)
  ]

  pub exchange-SameEntry :
      (t : AccessToken) (w : World http.State)
      → SameEntry j w (exchange_for_backend_jwt http jose settings now t w).1
  unfolding exchange_for_backend_jwt
  exchange-SameEntry t w =
      let request = exchange_request settings t in
      let sent = handle_async_request http jose request w in
      elim (Option-cases (exchanged sent.0)) [
        | inl e ↦ rw (e, exchange_for_backend_jwt) (handle-SameEntry request w)
        | inr (s, e) ↦ rw (e, exchange_for_backend_jwt) (handle-SameEntry request w)
      ]

  new_tenant-SameEntry :
      (t : AccessToken) (u : String) (w : World http.State)
      → (u == j) ≡ false
      → SameEntry j w (new_tenant http jose settings now token t u w).1
  unfolding new_tenant resolve_tenant
  new_tenant-SameEntry t u w n = elim (Option-cases (truthy settings.tenant_id)) [
    | inl e ↦
        rw (e, new_tenant)
          (proceed-SameEntry j w (resolve_tenant http t.token settings.go_api_base_url w) _
            (refl, refl) (λ tenant_id v. (cache-SameEntry j u tenant_id v.tenant_cache n, refl)))
    | inr (s, e) ↦ rw (e, new_tenant) (cache-SameEntry j u s w.tenant_cache n, refl)
  ]

  refresh_jwt-SameEntry :
      (t : AccessToken) (u : String) (w : World http.State)
      → (u == j) ≡ false
      → SameEntry j w (refresh_jwt http jose settings now token t u w).1
  unfolding refresh_jwt
  refresh_jwt-SameEntry t u w n =
      proceed-SameEntry j w (exchange_for_backend_jwt http jose settings now t w) _
        (exchange-SameEntry t w)
        (λ backend_jwt v. (refl, cache-SameEntry j u backend_jwt v.jwt_cache n))

  resolve_for-SameEntry :
      (t : AccessToken) (u : String) (w : World http.State)
      → (u == j) ≡ false
      → SameEntry j w (resolve_for http jose settings now token t u w).1
  unfolding resolve_for
  resolve_for-SameEntry t u w n =
      let refreshed = refresh_jwt http jose settings now token t u w in
      elim (Option-cases (truthy (lookup u w.tenant_cache))) [
        | inl e ↦
            rw (e, resolve_for)
              (proceed-SameEntry j w refreshed _ (refresh_jwt-SameEntry t u w n)
                (λ backend_jwt v. new_tenant-SameEntry t u v n))
        | inr (x, e) ↦ elim (Option-cases (truthy (lookup u w.jwt_cache))) [
          | inl f ↦
              rw (e, f, resolve_for)
                (proceed-SameEntry j w refreshed _ (refresh_jwt-SameEntry t u w n)
                  (λ backend_jwt v. (refl, refl)))
          | inr (k, f) ↦ rw (e, f, resolve_for) (refl, refl)
        ]
      ]

  resolve_with-SameEntry :
      (t : AccessToken) (w : World http.State)
      → truthy t.sub ≢ some j
      → SameEntry j w (resolve_with http jose settings now token t w).1
  unfolding resolve_with
  resolve_with-SameEntry t w n = elim (Option-cases (truthy t.sub)) [
    | inl e ↦ rw (e, resolve_with) (refl, refl)
    | inr (u, e) ↦
        let m : (u == j) ≡ false = elim (Bool-cases (u == j)) [
          | inl same ↦ absurd (n (e ∙ ap some ((eq_iff u j).0 same)))
          | inr differ ↦ differ
        ] in
        rw (e, resolve_with) (resolve_for-SameEntry t u w m)
  ]

  header_for-SameEntry :
      (t : AccessToken) (w : World http.State)
      → SameEntry j w (header_for http jose settings now token t w).1
  unfolding header_for
  header_for-SameEntry t w =
      let exchanged_header =
        proceed-SameEntry j w (exchange_for_backend_jwt http jose settings now t w) _
          (exchange-SameEntry t w) (λ backend_jwt v. (refl, refl)) in
      elim (Option-cases (truthy t.sub)) [
        | inl e ↦ rw (e, header_for) exchanged_header
        | inr (u, e) ↦ elim (Option-cases (lookup u w.jwt_cache)) [
          | inl f ↦ rw (e, f, header_for) exchanged_header
          | inr (k, f) ↦ rw (e, f, header_for) (refl, refl)
        ]
      ]

  ensure_session-SameEntry :
      (auth_header : String) (w : World http.State)
      → SameEntry j w (ensure_session http jose auth_header w).1
  unfolding ensure_session
  ensure_session-SameEntry auth_header w =
      let request = session_request auth_header in
      reraise-SameEntry j session_failed w _ (
        proceed-SameEntry j w (handle_async_request http jose request w) _
          (handle-SameEntry request w) (λ response v. (refl, refl)))

  get_backend_auth_header-SameEntry :
      (w : World http.State)
      → SameEntry j w (get_backend_auth_header http jose settings now token w).1
  unfolding get_backend_auth_header
  get_backend_auth_header-SameEntry w =
      reraise-SameEntry j exchange_error w _
        (proceed-SameEntry j w (lift token w) _ (refl, refl) (λ t v. header_for-SameEntry t v))

module _ (http : Http) (jose : Jose) (settings : Settings) (now : ℕ) (j : String) where
  ensure_tenant_resolved-SameEntry :
      (token : Result AccessToken) (w : World http.State)
      → caller token ≢ some j
      → SameEntry j w (ensure_tenant_resolved http jose settings now token w).1
  unfolding ensure_tenant_resolved
  ensure_tenant_resolved-SameEntry (ok t) w n =
      reraise-SameEntry j tenant_error w _
        (resolve_with-SameEntry http jose settings now (ok t) j t w n)
  ensure_tenant_resolved-SameEntry (err e) w n = (refl, refl)

  -- Whatever the network answers and however the call ends: a call on behalf of one user leaves the
  -- tenant and the JWT that are cached for every other user as they were.
  pub call-isolates :
      (token : Result AccessToken) (method : Method) (path : String) (params : Dict Json)
      (json : Option (Dict Json)) (if_match : Option ℕ) (w : World http.State)
      → caller token ≢ some j
      → let w' = (call http jose settings now token method path params json if_match w).1 in
        (lookup j w'.tenant_cache ≡ lookup j w.tenant_cache)
        × (lookup j w'.jwt_cache ≡ lookup j w.jwt_cache)
  unfolding call
  call-isolates token method path params json if_match w n =
      proceed-SameEntry j w (ensure_tenant_resolved http jose settings now token w) _
        (ensure_tenant_resolved-SameEntry token w n)
        (λ tenant_id v.
          proceed-SameEntry j v (get_backend_auth_header http jose settings now token v) _
            (get_backend_auth_header-SameEntry http jose settings now token j v)
            (λ auth_header v'.
              proceed-SameEntry j v' (ensure_session http jose auth_header v') _
                (ensure_session-SameEntry http jose settings now token j auth_header v')
                (λ headers u.
                  proceed-SameEntry j u (handle_async_request http jose _ u) _
                    (handle-SameEntry http jose settings now token j _ u)
                    (λ response v. (refl, refl)))))
