-- ===== src/E2e/Masking.antt =====
-- The script that e2e/support/masked-capture.ts adds to every page: it covers what is marked sensitive by
-- a style. The browser is a document, of which the script asks for the head and the event
-- `DOMContentLoaded`.
pub mod Once
use opanel.Common.{String, Bool, true, false, List, [], ◌∷◌, ◌++◌, if◌then◌else◌}

abbrev pub redaction_style : String
redaction_style =
    "\n  [data-sensitive],\n  [data-testid$=\"-secret\"],\n  [data-testid$=\"-token\"],\n  input[type=\"password\"] {\n    visibility: hidden !important;\n  }\n  [data-sensitive]::after {\n    content: \"[REDACTED]\" !important;\n    visibility: visible !important;\n    display: inline-block !important;\n    color: #000 !important;\n    background: #000 !important;\n  }\n"

-- A `style` element that carries `data-opanel-redaction`, by its text.
pub record StyleElement : Type 0 where
  pub text_content : String

-- The redaction styles in the head, and whether the listener of the script waits.
pub record Document : Type 0 where
  pub head : Bool
  pub styles : List StyleElement
  pub listening : Bool

-- What happens to a document: its head is parsed, `DOMContentLoaded` is fired, or a frame is painted.
pub data DocumentEvent : Type 0 where
  head_parsed : DocumentEvent
  content_loaded : DocumentEvent
  painted : DocumentEvent

-- `document.head?.appendChild(style)`
unfoldable pub install : String → Document → Document
install css document =
    if document.head
    then record document { styles = document.styles ++ record { text_content = css } ∷ [] }
    else document

-- The script, which runs once in each document.
unfoldable pub init_script : String → Document → Document
unfolding install
init_script css document =
    if document.head then install css document else record document { listening = true }

-- The listener is added with `{ once: true }`.
unfoldable pub on_event : String → DocumentEvent → Document → Document
unfolding install
on_event css head_parsed document = record document { head = true }
on_event css content_loaded document =
    if document.listening then install css (record document { listening = false }) else document
on_event css painted document = document

unfoldable pub on_events : String → List DocumentEvent → Document → Document
unfolding on_event
on_events css [] document = document
on_events css (e ∷ rest) document = on_events css rest (on_event css e document)
