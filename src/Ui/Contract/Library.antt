-- ===== src/Ui/Contract/Library.antt =====
-- The contract of a part over the whole component library.
use opanel.Common.{String, Bool, ℕ, Option, List, ◌++◌, All, All-append}
use opanel.Dom.{Props, Node}
use opanel.Ui.Cn.{ClassLibs}
use opanel.Ui.Contract.{IsPart}
use opanel.Ui.Contract.Surface.{surface_parts, surface_parts-IsPart}
use opanel.Ui.Contract.Overlay.{overlay_parts, overlay_parts-IsPart}
use opanel.Ui.Contract.Control.{control_parts, control_parts-IsPart}

module _ {M : Type 0} (L : ClassLibs) (flag : Option Bool) (choice : Option String)
    (size : Option ℕ) where
  -- All parts, each by its slot.
  abbrev pub library_parts : List (String × (Props M → Node M))
  library_parts =
      surface_parts L flag choice size
      ++ (overlay_parts L flag choice size ++ control_parts L flag choice size)

  -- Each of the listed parts of the component library keeps the contract of a part, with whatever flags,
  -- variant and size it is given: it has its `data-slot`, a prop of the caller wins over its own, it shows
  -- the caller's children, and its class is `cn` of its classes with the caller's class after them.
  pub library_parts-IsPart : All (λ entry. IsPart L entry.0 entry.1) library_parts
  library_parts-IsPart =
      let overlays = overlay_parts L flag choice size in
      let controls = control_parts L flag choice size in
      All-append (λ entry. IsPart {M = M} L entry.0 entry.1) (surface_parts L flag choice size)
        (overlays ++ controls) (surface_parts-IsPart L flag choice size)
        (All-append (λ entry. IsPart {M = M} L entry.0 entry.1) overlays controls
          (overlay_parts-IsPart L flag choice size) (control_parts-IsPart L flag choice size))
