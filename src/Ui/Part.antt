-- ===== src/Ui/Part.antt =====
-- The shape that most parts of the component library have:
-- `<tag data-slot="…" … className={cn(…, className)} {...props} />`.
use opanel.Common.{String, List, [], ◌∷◌, ◌++◌}
use opanel.Dom.{Attrs, Props, Node, Tag, str, jsx}
use opanel.Ui.Cn.{ClassLibs, ClassValue, cn, given}

module _ {M : Type 0} (L : ClassLibs) where
  unfoldable pub part : Tag → String → Attrs M → List ClassValue → Props M → Node M
  part tag slot own classes p =
      jsx tag
        (("data-slot", str slot)
          ∷ (own ++ ("className", str (cn L (classes ++ given p.class_name ∷ []))) ∷ []))
        p
