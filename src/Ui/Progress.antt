-- ===== src/Ui/Progress.antt =====
-- `Progress` of app/frontend/components/ui/progress/progress.tsx, with values that are natural
-- numbers.
pub mod Silent
use opanel.Common.{ℕ, ◌-◌, String, Option, none, some, [], ◌∷◌, leb, if◌then◌else◌}
use opanel.Dom.{Node, Props, nothing, element, foreign, str, style, spread, template}
use opanel.Common.Decimal.{decimal}
use opanel.Ui.Cn.{ClassLibs, ClassValue, cn, lit, given, falsy}

-- `${100 - value}`
abbrev pub remaining : ℕ → String
remaining value =
    if leb value 100 then decimal (100 - value) else template ("-" ∷ decimal (value - 100) ∷ [])

abbrev pub transform : Option ℕ → String
transform none = "translateX(0)"
transform (some value) = template ("translateX(-" ∷ remaining value ∷ "%)" ∷ [])

abbrev pulse : Option ℕ → ClassValue
pulse none = lit "animate-[progress-loading_2s_linear_infinite] motion-reduce:animate-pulse"
pulse (some value) = falsy

unfoldable pub progress : {M : Type 0} → ClassLibs → Option ℕ → Props M → Node M
progress L value p =
    element (foreign "Progress.Root")
      (spread
        (("data-slot", str "progress")
          ∷ (
            "className",
            str (
                cn L (
                  lit
                    "relative flex h-1 w-full items-center overflow-x-hidden rounded-full bg-muted"
                  ∷ given p.class_name
                  ∷ [])),
          )
          ∷ [])
        p.attrs)
      (element (foreign "Progress.Indicator")
        (("data-slot", str "progress-indicator")
          ∷ (
            "className",
            str (cn L (lit "size-full flex-1 bg-primary transition-all" ∷ pulse value ∷ [])),
          )
          ∷ ("style", style (("transform", transform value) ∷ []))
          ∷ [])
        nothing)
