-- ===== src/Ui/Html/ResultStyles.antt =====
-- mcp/toolbridge_mcp/ui/templates/note_edits.py: the style sheets of a discarded and a failed edit.
use toolbridge_api.Prelude.{String, List, [], ◌∷◌}

abbrev pub discarded_style : List String
discarded_style =
    "\n    <html>\n    <head>\n        <style>\n            * { box-sizing: border-box; }\n            html, body {\n                margin: 0;\n                padding: 0;\n                min-height: 100vh;\n                width: 100%;\n            }\n"
    ∷ "            body {\n                font-family: -apple-system, BlinkMacSystemFont, 'Segoe UI', Roboto, 'SF Pro', sans-serif;\n                background: linear-gradient(135deg, #1a1a2e 0%, #16213e 50%, #0f3460 100%);\n                font-size: 16px;\n                color: #e0e0e0;\n                padding: 24px;\n            }\n"
    ∷ "            .header {\n                display: flex;\n                align-items: center;\n                gap: 12px;\n                margin-bottom: 12px;\n            }\n"
    ∷ "            .header-icon {\n                font-size: 24px;\n                color: #8b949e;\n            }\n"
    ∷ "            h1 {\n                margin: 0;\n                color: #ffffff;\n                font-size: 24px;\n                font-weight: 600;\n            }\n"
    ∷ "            .message {\n                color: #8b949e;\n                font-size: 15px;\n                line-height: 1.5;\n            }\n"
    ∷ []

abbrev pub error_style : List String
error_style =
    "\n    <html>\n    <head>\n        <style>\n            * { box-sizing: border-box; }\n            html, body {\n                margin: 0;\n                padding: 0;\n                min-height: 100vh;\n                width: 100%;\n            }\n"
    ∷ "            body {\n                font-family: -apple-system, BlinkMacSystemFont, 'Segoe UI', Roboto, 'SF Pro', sans-serif;\n                background: linear-gradient(135deg, #1a1a2e 0%, #16213e 50%, #0f3460 100%);\n                font-size: 16px;\n                color: #e0e0e0;\n                padding: 24px;\n            }\n"
    ∷ "            .error-container {\n                background: rgba(248, 81, 73, 0.1);\n                border: 1px solid #f85149;\n                border-radius: 12px;\n                padding: 20px;\n            }\n"
    ∷ "            .header {\n                display: flex;\n                align-items: center;\n                gap: 12px;\n                margin-bottom: 12px;\n            }\n"
    ∷ "            .header-icon {\n                font-size: 24px;\n                color: #f85149;\n            }\n"
    ∷ "            h1 {\n                margin: 0;\n                color: #ffffff;\n                font-size: 20px;\n                font-weight: 600;\n            }\n"
    ∷ "            .error-message {\n                color: #ffa198;\n                font-size: 15px;\n                line-height: 1.5;\n                margin: 0;\n            }\n"
    ∷ "            .retry-hint {\n                color: #8b949e;\n                font-size: 13px;\n                margin-top: 12px;\n                margin-bottom: 0;\n            }\n"
    ∷ []
