-- ===== src/Ui/Html/DiffScript.antt =====
-- mcp/toolbridge_mcp/ui/templates/note_edits.py: the script of a proposed edit.
use toolbridge_api.Prelude.{String, List, [], ◌∷◌}

-- the script after the identifier of the session, and the end of the page
abbrev pub diff_script : List String
diff_script =
    "\";\n\n            // Host-adaptive action helper - works with both ChatGPT Apps and MCP-UI hosts\n            // ChatGPT Apps: uses window.openai.callTool (Apps SDK)\n            // MCP-UI hosts (ToolBridge, Nanobot, Goose): uses window.parent.postMessage\n            function callTool(toolName, params) {\n                const finalParams = params || {};\n\n                // ChatGPT Apps environment (Apps SDK)\n                if (window.openai && typeof window.openai.callTool === 'function') {\n                    window.openai.callTool(toolName, finalParams);\n                    return;\n                }\n\n                // MCP-UI hosts (ToolBridge Flutter, Nanobot, Goose, etc.)\n                window.parent.postMessage({\n                    type: 'tool',\n                    payload: {\n                        toolName: toolName,\n                        params: finalParams\n                    }\n                }, '*');\n            }\n"
    ∷ "\n            function applyChanges() {\n                callTool('apply_note_edit', {\n                    edit_id: EDIT_ID,\n                    ui_format: 'html'\n                });\n            }\n"
    ∷ "\n            function discardEdit() {\n                callTool('discard_note_edit', {\n                    edit_id: EDIT_ID,\n                    ui_format: 'html'\n                });\n            }\n"
    ∷ "\n            function acceptHunk(hunkId) {\n                callTool('accept_note_edit_hunk', {\n                    edit_id: EDIT_ID,\n                    hunk_id: hunkId,\n                    ui_format: 'html'\n                });\n            }\n"
    ∷ "\n            function rejectHunk(hunkId) {\n                callTool('reject_note_edit_hunk', {\n                    edit_id: EDIT_ID,\n                    hunk_id: hunkId,\n                    ui_format: 'html'\n                });\n            }\n"
    ∷ "\n            function reviseHunk(hunkId) {\n                const revised = window.prompt('Enter replacement text for this change');\n                if (revised === null) return;\n                callTool('revise_note_edit_hunk', {\n                    edit_id: EDIT_ID,\n                    hunk_id: hunkId,\n                    revised_text: revised,\n                    ui_format: 'html'\n                });\n            }\n"
    ∷ "        </script>\n    </body>\n    </html>\n    " ∷ []
