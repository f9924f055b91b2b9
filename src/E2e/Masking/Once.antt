-- ===== src/E2e/Masking/Once.antt =====
-- When the style of e2e/support/masked-capture.ts is in a document.
use opanel.Common.{String, Bool, true, false, ◌||◌, List, [], ◌∷◌, ◌≡◌, refl}
use opanel.E2e.Masking.{
  StyleElement, Document, DocumentEvent, head_parsed, content_loaded, painted, install, init_script,
  on_event, on_events,
}

abbrev pub loads : List DocumentEvent → Bool
loads [] = false
loads (head_parsed ∷ rest) = loads rest
loads (content_loaded ∷ rest) = true
loads (painted ∷ rest) = loads rest

-- Whether the head is parsed before the content is loaded.
abbrev pub loads_with_head : List DocumentEvent → Bool
loads_with_head [] = false
loads_with_head (head_parsed ∷ rest) = loads rest
loads_with_head (content_loaded ∷ rest) = false
loads_with_head (painted ∷ rest) = loads_with_head rest

abbrev pub one_style : Bool → String → List StyleElement
one_style true css = record { text_content = css } ∷ []
one_style false css = []

abbrev quiet : Bool → List StyleElement → Document
quiet head styles = record { head = head; styles = styles; listening = false }

abbrev waiting : Bool → Document
waiting head = record { head = head; styles = []; listening = true }

quiet_styles :
    (css : String) (events : List DocumentEvent) (head : Bool) (styles : List StyleElement)
    → (on_events css events (quiet head styles)).styles ≡ styles
unfolding on_events on_event
quiet_styles css [] head styles = refl
quiet_styles css (head_parsed ∷ rest) head styles = quiet_styles css rest true styles
quiet_styles css (content_loaded ∷ rest) head styles = quiet_styles css rest head styles
quiet_styles css (painted ∷ rest) head styles = quiet_styles css rest head styles

waiting-head :
    (css : String) (events : List DocumentEvent)
    → (on_events css events (waiting true)).styles ≡ one_style (loads events) css
unfolding on_events on_event install
waiting-head css [] = refl
waiting-head css (head_parsed ∷ rest) = waiting-head css rest
waiting-head css (content_loaded ∷ rest) = quiet_styles css rest true _
waiting-head css (painted ∷ rest) = waiting-head css rest

waiting-no_head :
    (css : String) (events : List DocumentEvent)
    → (on_events css events (waiting false)).styles ≡ one_style (loads_with_head events) css
unfolding on_events on_event install
waiting-no_head css [] = refl
waiting-no_head css (head_parsed ∷ rest) = waiting-head css rest
waiting-no_head css (content_loaded ∷ rest) = quiet_styles css rest false []
waiting-no_head css (painted ∷ rest) = waiting-no_head css rest

-- A document without styles of the script has the style once, and never twice, from the start if it has
-- a head when the script runs, and else only from the loading of its content on, if the head has been
-- parsed by then: until then no frame is masked.
pub init_script-styles :
    (css : String) (head : Bool) (events : List DocumentEvent)
    → (on_events css events
        (init_script css (record { head = head; styles = []; listening = false }))).styles
      ≡ one_style (head || loads_with_head events) css
unfolding init_script install
init_script-styles css true events = quiet_styles css events true _
init_script-styles css false events = waiting-no_head css events
