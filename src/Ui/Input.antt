-- ===== src/Ui/Input.antt =====
-- The components of app/frontend/components/ui/input/input.tsx.
use opanel.Common.{String, Bool, false, Option, [], ◌∷◌, if◌then◌else◌, or_else}
use opanel.Dom.{Props, Node, host, foreign, str, jsx, opt_str}
use opanel.Ui.Cn.{ClassLibs, cn, lit, given}

module _ {M : Type 0} (L : ClassLibs) where
  unfoldable pub input : Option Bool → Option String → Props M → Node M
  input as_child input_type p =
      jsx (if (or_else as_child false) then foreign "Slot.Root" else host "input")
        (("type", opt_str input_type)
          ∷ ("data-slot", str "input")
          ∷ (
            "className",
            str (
                cn L (
                  lit
                    "w-full min-w-0 rounded-md border border-input bg-transparent px-6 py-4 text-lg transition-colors outline-none file:inline-flex file:h-6 file:border-0 file:bg-transparent file:text-lg file:font-medium file:text-foreground placeholder:text-muted-foreground focus-visible:border-ring focus-visible:ring-3 focus-visible:ring-ring/50 disabled:pointer-events-none disabled:cursor-not-allowed disabled:bg-input/50 disabled:opacity-50 aria-invalid:border-destructive aria-invalid:ring-3 aria-invalid:ring-destructive/20 dark:bg-input/30 dark:disabled:bg-input/80 dark:aria-invalid:border-destructive/50 dark:aria-invalid:ring-destructive/40"
                  ∷ given p.class_name
                  ∷ [])),
          )
          ∷ [])
        p
