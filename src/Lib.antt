-- ===== src/Lib.antt =====
-- The MCP server of toolbridge, mcp/toolbridge_mcp: the edit flow of notes, from the line diff of a
-- proposed text to the update that applies what the user decided, and the requests to the Go API, each on
-- behalf of one user and one tenant.
--
-- The parts, and where they stand:
--
-- * Prelude.antt and its children, Errors.antt and Dict.antt hold what the parts share: tests on
--   numbers, lists measured by native numbers, texts and decimals, exceptions as values (`Result`),
--   and Python's dictionaries with text keys as association lists in insertion order.
-- * Diff.antt is mcp/toolbridge_mcp/utils/diff.py. Diff/Compute.antt has `compute_line_diff` and
--   `_merge_consecutive_hunks`, Diff/Annotate.antt `annotate_hunks_with_ids` and `count_changes`,
--   Diff/Apply.antt `apply_hunk_decisions`. Diff/Matcher.antt states what the documentation of
--   `difflib.SequenceMatcher.get_opcodes` promises; the matcher itself is a parameter.
-- * Notes.antt has the records of mcp/toolbridge_mcp/tools/notes.py, and NoteTools.antt its tools, over
--   the requests; NoteTools/Tools.antt fills the interface of the edit tools (`notes_api`).
-- * Entities.antt has the tools of mcp/toolbridge_mcp/tools/tasks.py, comments.py, chats.py and
--   chat_messages.py, a module each; Entities/Shapes.antt has what they share, Entities/Calls.antt any
--   sequence of calls of them and of the note tools.
-- * Sessions.antt is mcp/toolbridge_mcp/note_edit_sessions.py: Sessions/Types.antt has the records and
--   `_SESSIONS`, Sessions/Store.antt every operation, as a function from the dictionary to the
--   dictionary after it. The identifier of `uuid4` and the clock are arguments. Sessions/Objects.antt has
--   the same operations on objects that calls share by reference.
-- * Ui.antt is mcp/toolbridge_mcp/ui/resources.py: the content blocks of an answer. Ui/Dom.antt is
--   mcp/toolbridge_mcp/ui/remote_dom: Ui/Dom/Types.antt has the trees, Ui/Dom/Design.antt design.py,
--   and Ui/Dom/DiffContent.antt, Ui/Dom/HunkBlock.antt and Ui/Dom/NoteEdits.antt note_edits.py.
--   Ui/Html/HunkBlock.antt and Ui/Html/NoteEdits.antt are mcp/toolbridge_mcp/ui/templates/note_edits.py.
-- * NotesUi.antt is mcp/toolbridge_mcp/tools/notes_ui.py: NotesUi/Edit.antt has `edit_note_ui`, the
--   three decisions on a hunk and `discard_note_edit`, NotesUi/Texts.antt what they answer with,
--   NotesUi/Apply.antt `apply_note_edit`, and NotesUi/Interleaved.antt the same tool cut at its waits, as
--   steps between which other calls run. They run over NotesUi/Api.antt, an interface to the note tools over an unknown state.
-- * NotesUi/Listing.antt has `list_notes_ui` and `delete_note_ui`, over the note tools.
-- * Requests.antt is mcp/toolbridge_mcp/utils/requests.py with mcp/toolbridge_mcp/auth,
--   mcp/toolbridge_mcp/utils/session.py and mcp/toolbridge_mcp/transports/tenant_direct.py: the caches
--   of tenants and JWTs, and the requests, over an unknown network (`Http`) and an unknown signer
--   (`Jose`). A computation gives its result with the caches and the network after it, also when it
--   raises.
-- * Headers.antt is mcp/toolbridge_mcp/utils/headers.py, with the HMAC as a parameter;
--   `compare_digest` is that of the standard library.
-- * Tests.antt runs the code at concrete inputs.
--
-- How the parts interact: `edit_note_ui` fetches a note, computes and annotates the full diff, and
-- hands a copy with long unchanged hunks cut for display to a new session. Each decision updates one
-- hunk of the stored session and, once no changed hunk is pending, makes the merged content from the
-- full diff again. `apply_note_edit` checks the version of the note and the pending hunks, sends the
-- merged content, and drops the session.
--
-- Bounds: versions, line numbers and times are natural numbers, as Python's integers are unbounded and
-- the code only counts up. The only fuel is that of the decimal digits of n, n + 1, which is never used
-- up. Every loop of the code is structural recursion on the list that it goes through.
--
-- Not modelled: the HTML and the Remote DOM trees for notes, tasks and an applied edit (a view stands for
-- them), and logging. Tools other than `apply_note_edit` run alone, from their call to their answer.
-- `json.loads` on a text of anything but an object where a dict is meant is left out.
-- `context_lines`, which the code ignores, is left out. A title or a content that is no text raises,
-- as a method of `str` does on it. `show_note_ui`, which cuts a field of any JSON type, is left out, and so are the tools of
-- mcp/toolbridge_mcp/tools/tasks_ui.py, which call a task tool as the decorator has wrapped it, and not its
-- function. A text is a sequence of Unicode scalar values.
pub mod Prelude
pub mod Errors
pub mod Dict
pub mod Entities
pub mod Diff
pub mod Notes
pub mod Sessions
pub mod Ui
pub mod NotesUi
pub mod Requests
pub mod NoteTools
pub mod Headers
pub mod Tests
