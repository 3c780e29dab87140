-- ===== src/Ui/Html/DiffStyle.antt =====
-- mcp/toolbridge_mcp/ui/templates/note_edits.py: the style sheet of a proposed edit.
use toolbridge_api.Prelude.{String, List, [], ◌∷◌}

-- the page up to its style sheet, and the rules
abbrev pub diff_style : List String
diff_style =
    "\n    <html>\n    <head>\n        <style>\n            * { box-sizing: border-box; }\n            html, body {\n                margin: 0;\n                padding: 0;\n                min-height: 100vh;\n                width: 100%;\n            }\n"
    ∷ "            body {\n                font-family: -apple-system, BlinkMacSystemFont, 'Segoe UI', Roboto, 'SF Pro', sans-serif;\n                background: linear-gradient(135deg, #1a1a2e 0%, #16213e 50%, #0f3460 100%);\n                font-size: 16px;\n                color: #e0e0e0;\n                padding: 24px;\n            }\n"
    ∷ "            .header {\n                display: flex;\n                align-items: center;\n                gap: 12px;\n                margin-bottom: 8px;\n            }\n"
    ∷ "            .header-icon {\n                font-size: 24px;\n            }\n"
    ∷ "            h1 {\n                margin: 0;\n                color: #ffffff;\n                font-size: 24px;\n                font-weight: 600;\n            }\n"
    ∷ "            .subtitle {\n                color: #8b949e;\n                font-size: 14px;\n                margin-bottom: 16px;\n            }\n"
    ∷ "            .summary-text {\n                color: #c9d1d9;\n                font-size: 15px;\n                margin-bottom: 16px;\n                line-height: 1.5;\n            }\n"
    ∷ "            .status-chips {\n                display: flex;\n                flex-wrap: wrap;\n                gap: 8px;\n                margin-bottom: 20px;\n            }\n"
    ∷ "            .status-chip {\n                padding: 4px 12px;\n                border-radius: 16px;\n                font-size: 13px;\n                font-weight: 500;\n                border: 1px solid;\n            }\n"
    ∷ "            .status-pending {\n                background: transparent;\n                border-color: #6e7681;\n                color: #8b949e;\n            }\n"
    ∷ "            .status-accepted {\n                background: rgba(63, 185, 80, 0.15);\n                border-color: #3fb950;\n                color: #3fb950;\n            }\n"
    ∷ "            .status-rejected {\n                background: rgba(248, 81, 73, 0.15);\n                border-color: #f85149;\n                color: #f85149;\n            }\n"
    ∷ "            .status-revised {\n                background: rgba(88, 166, 255, 0.15);\n                border-color: #58a6ff;\n                color: #58a6ff;\n            }\n"
    ∷ "            .hunk-card {\n                margin-bottom: 16px;\n                border-radius: 8px;\n                border: 1px solid;\n                overflow: hidden;\n            }\n"
    ∷ "            .hunk-card.status-pending {\n                border-color: #6e7681;\n                background: rgba(255, 255, 255, 0.03);\n            }\n"
    ∷ "            .hunk-card.status-accepted {\n                border-color: #3fb950;\n                background: #1c4428;\n            }\n"
    ∷ "            .hunk-card.status-rejected {\n                border-color: #f85149;\n                background: #5c1a1b;\n            }\n"
    ∷ "            .hunk-card.status-revised {\n                border-color: #58a6ff;\n                background: #2d3a4d;\n            }\n"
    ∷ "            .hunk-header {\n                padding: 12px 16px;\n                display: flex;\n                align-items: center;\n                gap: 12px;\n                border-bottom: 1px solid rgba(255, 255, 255, 0.1);\n            }\n"
    ∷ "            .hunk-status-badge {\n                padding: 2px 8px;\n                border-radius: 4px;\n                font-size: 12px;\n                font-weight: 600;\n                text-transform: capitalize;\n            }\n"
    ∷ "            .hunk-status-badge.pending {\n                background: #6e7681;\n                color: #ffffff;\n            }\n"
    ∷ "            .hunk-status-badge.accepted {\n                background: #3fb950;\n                color: #ffffff;\n            }\n"
    ∷ "            .hunk-status-badge.rejected {\n                background: #f85149;\n                color: #ffffff;\n            }\n"
    ∷ "            .hunk-status-badge.revised {\n                background: #58a6ff;\n                color: #ffffff;\n            }\n"
    ∷ "            .hunk-info {\n                color: #8b949e;\n                font-size: 14px;\n            }\n"
    ∷ "            .hunk-content {\n                padding: 0;\n            }\n"
    ∷ "            .diff-line {\n                padding: 4px 12px;\n                font-family: 'SF Mono', 'Monaco', 'Inconsolata', 'Fira Mono', monospace;\n                font-size: 13px;\n                line-height: 1.5;\n                white-space: pre-wrap;\n                word-break: break-all;\n            }\n"
    ∷ "            .diff-line.added {\n                background: #1c4428;\n                color: #3fb950;\n            }\n"
    ∷ "            .diff-line.removed {\n                background: #5c1a1b;\n                color: #f85149;\n            }\n"
    ∷ "            .diff-line.context {\n                background: #21262d;\n                color: #8b949e;\n            }\n"
    ∷ "            .hunk-actions {\n                padding: 12px 16px;\n                display: flex;\n                justify-content: flex-end;\n                gap: 8px;\n                border-top: 1px solid rgba(255, 255, 255, 0.1);\n            }\n"
    ∷ "            .unchanged-block {\n                padding: 12px 16px;\n                background: #21262d;\n                border-radius: 8px;\n                margin-bottom: 16px;\n            }\n"
    ∷ "            .unchanged-text {\n                color: #8b949e;\n                font-family: 'SF Mono', 'Monaco', 'Inconsolata', 'Fira Mono', monospace;\n                font-size: 13px;\n                white-space: pre-wrap;\n            }\n"
    ∷ "            .actions-row {\n                display: flex;\n                justify-content: flex-end;\n                gap: 12px;\n                margin-top: 24px;\n                padding-top: 16px;\n                border-top: 1px solid rgba(255, 255, 255, 0.1);\n            }\n"
    ∷ "            .btn {\n                padding: 10px 20px;\n                border: none;\n                border-radius: 8px;\n                font-size: 14px;\n                font-weight: 600;\n                cursor: pointer;\n                transition: all 0.2s ease;\n                display: inline-flex;\n                align-items: center;\n                gap: 6px;\n            }\n"
    ∷ "            .btn:hover:not(:disabled) {\n                transform: translateY(-1px);\n                box-shadow: 0 4px 12px rgba(0,0,0,0.3);\n            }\n"
    ∷ "            .btn:active:not(:disabled) {\n                transform: translateY(0);\n            }\n"
    ∷ "            .btn-primary {\n                background: #238636;\n                color: white;\n            }\n"
    ∷ "            .btn-primary:hover:not(:disabled) {\n                background: #2ea043;\n            }\n"
    ∷ "            .btn-secondary {\n                background: #373e47;\n                color: #c9d1d9;\n            }\n"
    ∷ "            .btn-secondary:hover:not(:disabled) {\n                background: #444c56;\n            }\n"
    ∷ "            .btn-danger {\n                background: #da3633;\n                color: white;\n            }\n"
    ∷ "            .btn-danger:hover:not(:disabled) {\n                background: #f85149;\n            }\n"
    ∷ "            .btn-text {\n                background: transparent;\n                color: #8b949e;\n            }\n"
    ∷ "            .btn-text:hover:not(:disabled) {\n                background: rgba(255, 255, 255, 0.1);\n                color: #c9d1d9;\n            }\n"
    ∷ "            .btn-disabled {\n                opacity: 0.5;\n                cursor: not-allowed;\n            }\n"
    ∷ "            .btn-sm {\n                padding: 6px 12px;\n                font-size: 12px;\n            }\n"
    ∷ []
