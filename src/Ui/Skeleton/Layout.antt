-- ===== src/Ui/Skeleton/Layout.antt =====
-- The placeholders of app/frontend/components/ui/skeleton/skeleton-layout.tsx. The sources map over
-- literal arrays, which are written out here.
pub mod Silent
use opanel.Common.{String, none, some, [], ◌∷◌}
use opanel.Dom.{Props, Node, nothing, element, host, str, style, many, spread}
use opanel.Ui.Cn.{ClassLibs, cn, lit, given}
use opanel.Ui.Skeleton.{skeleton}
use opanel.Ui.Skeleton.Rows.{
  field_rows, breadcrumb_rows, button_group_rows, chart_rows, control_rows, form_rows, list_rows,
}
use opanel.Ui.Skeleton.Shapes.{
  message_rows, navigation_rows, otp_rows, overlay_rows, pagination_rows, panel_rows, profile_rows,
}
use opanel.Ui.Skeleton.Panels.{
  slider_rows, table_rows, tabs_rows, textarea_rows, title_rows, upload_rows,
}

pub data SkeletonLayoutVariant : Type 0 where
  avatar : SkeletonLayoutVariant
  badge : SkeletonLayoutVariant
  breadcrumb : SkeletonLayoutVariant
  button : SkeletonLayoutVariant
  button_group : SkeletonLayoutVariant
  chart : SkeletonLayoutVariant
  control : SkeletonLayoutVariant
  field : SkeletonLayoutVariant
  form : SkeletonLayoutVariant
  icon : SkeletonLayoutVariant
  list : SkeletonLayoutVariant
  media : SkeletonLayoutVariant
  message : SkeletonLayoutVariant
  navigation : SkeletonLayoutVariant
  otp : SkeletonLayoutVariant
  overlay : SkeletonLayoutVariant
  pagination : SkeletonLayoutVariant
  panel : SkeletonLayoutVariant
  profile : SkeletonLayoutVariant
  progress : SkeletonLayoutVariant
  separator : SkeletonLayoutVariant
  slider : SkeletonLayoutVariant
  spinner : SkeletonLayoutVariant
  table : SkeletonLayoutVariant
  tabs : SkeletonLayoutVariant
  textarea : SkeletonLayoutVariant
  text : SkeletonLayoutVariant
  title : SkeletonLayoutVariant
  upload : SkeletonLayoutVariant

-- A component with the name that tools show for it.
pub record ComponentSkeleton (M : Type 0) : Type 0 where
  pub display_name : String
  pub render : Props M → Node M

module _ {M : Type 0} (L : ClassLibs) where
  unfoldable pub content : SkeletonLayoutVariant → Node M
  unfolding skeleton field_rows breadcrumb_rows button_group_rows chart_rows control_rows form_rows
      list_rows message_rows navigation_rows otp_rows overlay_rows pagination_rows panel_rows
      profile_rows slider_rows table_rows tabs_rows textarea_rows title_rows upload_rows
  content avatar =
      skeleton L
        (record { class_name = some "size-10 rounded-full"; attrs = []; children = nothing })
  content badge =
      skeleton L
        (record { class_name = some "h-7 w-24 rounded-md"; attrs = []; children = nothing })
  content breadcrumb = breadcrumb_rows L
  content button =
      skeleton L
        (record { class_name = some "h-14 w-36 rounded-md"; attrs = []; children = nothing })
  content button_group = button_group_rows L
  content chart = chart_rows L
  content control = control_rows L
  content field = field_rows L
  content form = form_rows L
  content icon =
      skeleton L
        (record { class_name = some "size-[18px] rounded-md"; attrs = []; children = nothing })
  content list = list_rows L
  content media = skeleton L (record {
    class_name = some "aspect-video w-full rounded-md";
    attrs = [];
    children = nothing;
  })
  content message = message_rows L
  content navigation = navigation_rows L
  content otp = otp_rows L
  content overlay = overlay_rows L
  content pagination = pagination_rows L
  content panel = panel_rows L
  content profile = profile_rows L
  content progress =
      skeleton L
        (record { class_name = some "h-3 w-full rounded-full"; attrs = []; children = nothing })
  content separator =
      skeleton L
        (record { class_name = some "h-px w-full rounded-none"; attrs = []; children = nothing })
  content slider = slider_rows L
  content spinner =
      skeleton L
        (record { class_name = some "size-6 rounded-full"; attrs = []; children = nothing })
  content table = table_rows L
  content tabs = tabs_rows L
  content textarea = textarea_rows L
  content text =
      skeleton L
        (record { class_name = some "h-5 w-36 rounded-md"; attrs = []; children = nothing })
  content title = title_rows L
  content upload = upload_rows L

  unfoldable pub skeleton_layout : SkeletonLayoutVariant → Props M → Node M
  unfolding content
  skeleton_layout variant p =
      element (host "div")
        (spread
          (("data-slot", str "component-skeleton")
            ∷ ("aria-hidden", str "true")
            ∷ ("className", str (cn L (lit "w-full space-y-3" ∷ given p.class_name ∷ [])))
            ∷ [])
          p.attrs)
        (content variant)

  unfoldable pub create_component_skeleton : String → SkeletonLayoutVariant → ComponentSkeleton M
  unfolding skeleton_layout
  create_component_skeleton name variant = record {
    display_name = name;
    render = skeleton_layout variant;
  }
