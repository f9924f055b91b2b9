-- ===== src/Ui/Progress/Silent.antt =====
-- The value of a progress bar does not reach the element that reports it.
use opanel.Common.{ℕ, Option, none, ◌≡◌, refl}
use opanel.Dom.{Props, get, root_attrs}
use opanel.Dom.Attrs.{get-spread_kept}
use opanel.Ui.Cn.{ClassLibs}
use opanel.Ui.Progress.{progress}

-- Progress bars that differ in their values alone have the same attributes at the root, and none of
-- these is a value unless it stands among the other props.
pub progress-silent :
    {M : Type 0} (L : ClassLibs) (a b : Option ℕ) (p : Props M)
    → get "value" p.attrs ≡ none
    → (root_attrs (progress L a p) ≡ root_attrs (progress L b p))
      × (get "value" (root_attrs (progress L a p)) ≡ none)
unfolding progress get
progress-silent L a b p h = (refl, get-spread_kept "value" _ p.attrs h)
