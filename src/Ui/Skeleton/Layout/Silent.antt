-- ===== src/Ui/Skeleton/Layout/Silent.antt =====
-- What every placeholder of app/frontend/components/ui/skeleton/skeleton-layout.tsx has in common.

use opanel.Common.{◌≤◌, ◌≡◌, refl, Bool, true, not, none, some, [], ◌===◌, arith}
use opanel.Dom.{Props, Node, Tag, host, foreign, Attrs, str, texts, count, get, spread, root_attrs}
use opanel.Dom.Attrs.{get-spread_kept}
use opanel.Dom.Entries.{says}
use opanel.Ui.Cn.{ClassLibs}
use opanel.Ui.Part.{part}
use opanel.Ui.Skeleton.{skeleton}
use opanel.Ui.Skeleton.Layout.{
  SkeletonLayoutVariant, avatar, badge, breadcrumb, button, button_group, chart, control, field,
  form, icon, list, media, message, navigation, otp, overlay, pagination, panel, profile, progress,
  separator, slider, spinner, table, tabs, textarea, text, title, upload, content, skeleton_layout,
}
use opanel.Ui.Skeleton.Rows.{
  field_rows, breadcrumb_rows, button_group_rows, chart_rows, control_rows, form_rows, list_rows,
}
use opanel.Ui.Skeleton.Shapes.{
  message_rows, navigation_rows, otp_rows, overlay_rows, pagination_rows, panel_rows, profile_rows,
}
use opanel.Ui.Skeleton.Panels.{
  slider_rows, table_rows, tabs_rows, textarea_rows, title_rows, upload_rows,
}

module _ {M : Type 0} where
  -- An element other than a plain `div`: one that a screen reader or the keyboard could stop at.
  abbrev pub is_other : Tag → Attrs M → Bool
  is_other (host name) attrs = not (name === "div")
  is_other (foreign name) attrs = true

  abbrev pub is_block : Tag → Attrs M → Bool
  is_block tag attrs = says (get "data-slot" attrs) "skeleton"

  -- No text, nothing but plain elements, and at least one grey block.
  abbrev pub IsSilent : Node M → Type 0
  IsSilent node = (texts node ≡ []) × (count is_other node ≡ 0) × (1 ≤ count is_block node)

content-IsSilent :
    (M : Type 0) (L : ClassLibs) (variant : SkeletonLayoutVariant)
    → IsSilent (content {M = M} L variant)
unfolding content skeleton part texts count get spread field_rows breadcrumb_rows button_group_rows
    chart_rows control_rows form_rows list_rows message_rows navigation_rows otp_rows overlay_rows
    pagination_rows panel_rows profile_rows slider_rows table_rows tabs_rows textarea_rows
    title_rows upload_rows
content-IsSilent M L avatar = (refl, refl, omega arith)
content-IsSilent M L badge = (refl, refl, omega arith)
content-IsSilent M L breadcrumb = (refl, refl, omega arith)
content-IsSilent M L button = (refl, refl, omega arith)
content-IsSilent M L button_group = (refl, refl, omega arith)
content-IsSilent M L chart = (refl, refl, omega arith)
content-IsSilent M L control = (refl, refl, omega arith)
content-IsSilent M L field = (refl, refl, omega arith)
content-IsSilent M L form = (refl, refl, omega arith)
content-IsSilent M L icon = (refl, refl, omega arith)
content-IsSilent M L list = (refl, refl, omega arith)
content-IsSilent M L media = (refl, refl, omega arith)
content-IsSilent M L message = (refl, refl, omega arith)
content-IsSilent M L navigation = (refl, refl, omega arith)
content-IsSilent M L otp = (refl, refl, omega arith)
content-IsSilent M L overlay = (refl, refl, omega arith)
content-IsSilent M L pagination = (refl, refl, omega arith)
content-IsSilent M L panel = (refl, refl, omega arith)
content-IsSilent M L profile = (refl, refl, omega arith)
content-IsSilent M L progress = (refl, refl, omega arith)
content-IsSilent M L separator = (refl, refl, omega arith)
content-IsSilent M L slider = (refl, refl, omega arith)
content-IsSilent M L spinner = (refl, refl, omega arith)
content-IsSilent M L table = (refl, refl, omega arith)
content-IsSilent M L tabs = (refl, refl, omega arith)
content-IsSilent M L textarea = (refl, refl, omega arith)
content-IsSilent M L text = (refl, refl, omega arith)
content-IsSilent M L title = (refl, refl, omega arith)
content-IsSilent M L upload = (refl, refl, omega arith)

-- For every variant and all props, a placeholder shows no text, has no element but plain `div`s, and
-- at least one grey block; it is hidden from screen readers unless the props say otherwise.
pub skeleton_layout-IsSilent :
    {M : Type 0} (L : ClassLibs) (variant : SkeletonLayoutVariant) (p : Props M)
    → get "aria-hidden" p.attrs ≡ none
    → IsSilent (skeleton_layout L variant p)
      × (get "aria-hidden" (root_attrs (skeleton_layout L variant p)) ≡ some (str "true"))
unfolding skeleton_layout texts count get
skeleton_layout-IsSilent {M} L variant p h =
    let inside = content-IsSilent M L variant in
    let kept = get-spread_kept "aria-hidden" _ p.attrs h in
    ((inside.0, omega (arith, inside.1), omega (arith, inside.2)), kept)
