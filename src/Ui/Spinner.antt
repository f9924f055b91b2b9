-- ===== src/Ui/Spinner.antt =====
-- The components of app/frontend/components/ui/spinner/spinner.tsx.
use opanel.Common.{[], ◌∷◌}
use opanel.Dom.{Props, Node, str, spread}
use opanel.Ui.Cn.{ClassLibs, cn, lit, given}
use opanel.Ui.Icons.{icon}

module _ {M : Type 0} (L : ClassLibs) where
  unfoldable pub spinner : Props M → Node M
  spinner p = icon "loading" (
      spread
        (("data-slot", str "spinner")
          ∷ ("role", str "status")
          ∷ ("aria-label", str "Loading")
          ∷ ("className", str (cn L (lit "size-[18px] animate-spin" ∷ given p.class_name ∷ [])))
          ∷ [])
        p.attrs)
