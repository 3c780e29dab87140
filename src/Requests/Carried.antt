-- ===== src/Requests/Carried.antt =====
-- mcp/toolbridge_mcp/transports/tenant_direct.py: the tenant under which a request is sent.
use Prim.Native.String.{◌++◌ as ◌<>◌}
use toolbridge_api.Prelude.{
  ℕ, String, ◌≡◌, refl, subst, ap, ◌∙◌, inl, inr, Option, none, some, eq_refl, arith, Option-cases,
}
use toolbridge_api.Prelude.Text.{strip_prefix-append}
use toolbridge_api.Errors.{Result, ok, err, Result-cases}
use toolbridge_api.Dict.{lookup, insert, lookup-insert}
use toolbridge_api.Requests.Transport.{tenant_for, handle_async_request, extract_user_id}
use toolbridge_api.Requests.Types.{
  AccessToken, Settings, Request, Response, Body, Http, Jose, World, truthy, Action, proceed,
  reraise, plain_send, cache_jwt, cache_tenant,
}
use toolbridge_api.Requests.Exchange.{exchange_for_backend_jwt}
use toolbridge_api.Requests.Tenant.{
  body_tenant, response_tenant, resolved_tenant, resolve_tenant, tenant_request,
}
use toolbridge_api.Requests.Calls.{
  tenant_error, new_tenant, refresh_jwt, resolve_for, resolve_with, ensure_tenant_resolved,
  get_backend_auth_header,
}
use toolbridge_api.Requests.Isolation.{SameEntry, exchange-SameEntry}
use toolbridge_api.Requests.Caching.{truthy-some, header-hit}

truthy_idem : (o : Option String) (s : String) → truthy o ≡ some s → truthy (some s) ≡ some s
truthy_idem none s e = absurd (ground (arith, e))
truthy_idem (some x) s e = ground (arith, e)

body_tenant-truthy : (b : Body) (s : String) → body_tenant b ≡ ok s → truthy (some s) ≡ some s
body_tenant-truthy b s e = elim (Option-cases (truthy b.tenant_id)) [
  | inl n ↦ absurd (ground (arith, e, n))
  | inr (x, f) ↦ truthy_idem b.tenant_id s (ground (arith, e, f))
]

response_tenant-truthy :
    (r : Response) (s : String) → response_tenant r ≡ ok s → truthy (some s) ≡ some s
unfolding response_tenant
response_tenant-truthy r s e = elim (Result-cases r.json) [
  | inl (b, j) ↦ body_tenant-truthy b s (ground (arith, e, j))
  | inr (x, j) ↦ absurd (ground (arith, e, j))
]

-- A value means that the user has it as the tenant in the cache, not empty, and a JWT beside it.
abbrev pub Cached : {S : Type 0} → String → Result String × World S → Type 0
Cached u (ok x, v) =
    (truthy (lookup u v.tenant_cache) ≡ some x) × ((k : String) × (lookup u v.jwt_cache ≡ some k))
Cached u (err e, v) = Unit

module _ {S : Type 0} (u : String) where
  after_refresh-Cached :
      (w : World S) (r : Result String × World S) (f : String → Action S String)
      → SameEntry u w r.1
      → ((k : String) (v : World S)
          → lookup u v.tenant_cache ≡ lookup u w.tenant_cache
          → Cached u (f k (cache_jwt u k v)))
      → Cached u (proceed (proceed r (λ k v. (ok k, cache_jwt u k v))) f)
  after_refresh-Cached w (ok k, v) f s h = h k v s.0
  after_refresh-Cached w (err e, v) f s h = tt

  cache_tenant-Cached :
      (v : World S) (x k : String)
      → truthy (some x) ≡ some x
      → lookup u v.jwt_cache ≡ some k
      → Cached u (ok x, cache_tenant u x v)
  cache_tenant-Cached v x k e f = (rw (lookup-insert u u x v.tenant_cache, eq_refl u) e, (k, f))

  insert-found : (k : String) (v : World S) → lookup u (cache_jwt u k v).jwt_cache ≡ some k
  insert-found k v = rw (lookup-insert u u k v.jwt_cache, eq_refl u)

module _ (http : Http) (jose : Jose) (settings : Settings) (now : ℕ) (t : AccessToken)
    (u : String) where
  resolved-Cached :
      (r : Result String) (v : World http.State) (k : String)
      → ((x : String) → r ≡ ok x → truthy (some x) ≡ some x)
      → lookup u v.jwt_cache ≡ some k
      → Cached u (proceed (r, v) (λ tenant_id w. (ok tenant_id, cache_tenant u tenant_id w)))
  resolved-Cached (ok x) v k h f = cache_tenant-Cached u v x k (h x refl) f
  resolved-Cached (err e) v k h f = tt

  resolved_tenant-truthy :
      (r : Result Response) (x : String) → resolved_tenant r ≡ ok x → truthy (some x) ≡ some x
  resolved_tenant-truthy (ok response) x e = response_tenant-truthy response x e
  resolved_tenant-truthy (err e) x f = absurd (ground (arith, f))

  new_tenant-Cached :
      (v : World http.State) (k : String)
      → lookup u v.jwt_cache ≡ some k
      → Cached u (new_tenant http jose settings now (ok t) t u v)
  unfolding new_tenant resolve_tenant
  new_tenant-Cached v k f = elim (Option-cases (truthy settings.tenant_id)) [
    | inr (x, e) ↦
        rw (e, new_tenant) (cache_tenant-Cached u v x k (truthy_idem settings.tenant_id x e) f)
    | inl e ↦
        let sent = plain_send http (tenant_request t.token settings.go_api_base_url) v in
        rw (e, new_tenant)
          (resolved-Cached (resolved_tenant sent.0) sent.1 k (resolved_tenant-truthy sent.0) f)
  ]

  resolve_for-Cached :
      (w : World http.State) → Cached u (resolve_for http jose settings now (ok t) t u w)
  unfolding resolve_for refresh_jwt
  resolve_for-Cached w =
      let exchange = exchange_for_backend_jwt http jose settings now t w in
      let same = exchange-SameEntry http jose settings now (ok t) u t w in
      elim (Option-cases (truthy (lookup u w.tenant_cache))) [
        | inl e ↦
            rw (e, resolve_for, refresh_jwt)
              (after_refresh-Cached u w exchange _ same
                (λ k v s. new_tenant-Cached (cache_jwt u k v) k (insert-found u k v)))
        | inr (x, e) ↦ elim (Option-cases (truthy (lookup u w.jwt_cache))) [
          | inl f ↦
              rw (e, f, resolve_for, refresh_jwt)
                (after_refresh-Cached u w exchange _ same
                  (λ k v s. (ap truthy s ∙ e, (k, insert-found u k v))))
          | inr (k, f) ↦ rw (e, f, resolve_for) (e, (k, truthy-some (lookup u w.jwt_cache) k f))
        ]
      ]

  resolve_with-Cached :
      (w : World http.State)
      → truthy t.sub ≡ some u
      → Cached u (resolve_with http jose settings now (ok t) t w)
  unfolding resolve_with
  resolve_with-Cached w named = rw (named, resolve_with) (resolve_for-Cached w)

  Cached-reraise :
      (r : Result String × World http.State) → Cached u r → Cached u (reraise tenant_error r)
  Cached-reraise (ok x, v) c = c
  Cached-reraise (err e, v) c = tt

  ensure_tenant_resolved-Cached :
      (w : World http.State)
      → truthy t.sub ≡ some u
      → Cached u (ensure_tenant_resolved http jose settings now (ok t) w)
  unfolding ensure_tenant_resolved
  ensure_tenant_resolved-Cached w named =
      Cached-reraise (resolve_with http jose settings now (ok t) t w) (resolve_with-Cached w named)

  handle-found :
      (request : Request) (w : World http.State) (backend_jwt tenant_id : String)
      → lookup "Authorization" request.headers ≡ some ("Bearer " <> backend_jwt)
      → jose.decode_sub backend_jwt ≡ ok (some u)
      → truthy (lookup u w.tenant_cache) ≡ some tenant_id
      → handle_async_request http jose request w
        ≡ plain_send http
            (record request { headers = insert "X-TB-Tenant-ID" tenant_id request.headers })
            w
  unfolding handle_async_request tenant_for
  handle-found request w backend_jwt tenant_id e d c =
      let x : extract_user_id jose backend_jwt ≡ u = rw (d, extract_user_id) refl in
      rw (e, strip_prefix-append "Bearer " backend_jwt, x, c, handle_async_request, tenant_for)

  -- After `ensure_tenant_resolved` has returned a tenant for the user of the token:
  -- `get_backend_auth_header` gives the cached JWT without a request, and if that JWT names the user
  -- as its subject, the transport sends every request with this header under exactly that tenant.
  pub resolved-carried :
      (w w' : World http.State) (tenant_id : String)
      → truthy t.sub ≡ some u
      → ensure_tenant_resolved http jose settings now (ok t) w ≡ (ok tenant_id, w')
      → (backend_jwt : String) × (get_backend_auth_header http jose settings now (ok t) w'
          ≡ (ok ("Bearer " <> backend_jwt), w'))
        × ((request : Request)
            → lookup "Authorization" request.headers ≡ some ("Bearer " <> backend_jwt)
            → jose.decode_sub backend_jwt ≡ ok (some u)
            → handle_async_request http jose request w'
              ≡ plain_send http
                  (record request { headers = insert "X-TB-Tenant-ID" tenant_id request.headers })
                  w')
  resolved-carried w w' tenant_id named e =
      let (c, (k, f)) = subst (Cached u) e (ensure_tenant_resolved-Cached w named) in
      (
        k,
        header-hit http jose settings now t u named w' k f,
        λ request a d. handle-found request w' k tenant_id a d c,
      )
