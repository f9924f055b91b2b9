-- ===== src/Ui/Skeleton/Rows.antt =====
-- Contents of placeholders of app/frontend/components/ui/skeleton/skeleton-layout.tsx: field,
-- breadcrumb, button group, chart, control, form, list.
use opanel.Common.{some, [], ◌∷◌}
use opanel.Dom.{Node, nothing, element, host, str, style, many}
use opanel.Ui.Cn.{ClassLibs, cn, lit}
use opanel.Ui.Skeleton.{skeleton}

module _ {M : Type 0} (L : ClassLibs) where
  unfoldable pub field_rows : Node M
  unfolding skeleton
  field_rows =
      (many (
        (skeleton L
          (record { class_name = some "h-5 w-28 rounded-md"; attrs = []; children = nothing }))
        ∷ (skeleton L
            (record { class_name = some "h-14 w-full rounded-md"; attrs = []; children = nothing }))
        ∷ []))

  unfoldable pub breadcrumb_rows : Node M
  unfolding skeleton
  breadcrumb_rows = element (host "div") (("className", str "flex items-center gap-2") ∷ []) (
      many (
        (skeleton L
          (record { class_name = some "h-5 w-20 rounded-md"; attrs = []; children = nothing }))
        ∷ (skeleton L
            (record { class_name = some "size-3 rounded-md"; attrs = []; children = nothing }))
        ∷ (skeleton L
            (record { class_name = some "h-5 w-28 rounded-md"; attrs = []; children = nothing }))
        ∷ (skeleton L
            (record { class_name = some "size-3 rounded-md"; attrs = []; children = nothing }))
        ∷ (skeleton L
            (record { class_name = some "h-5 w-24 rounded-md"; attrs = []; children = nothing }))
        ∷ []))

  unfoldable pub button_group_rows : Node M
  unfolding skeleton
  button_group_rows = element (host "div") (("className", str "flex") ∷ []) (
      many (
        (skeleton L (record {
          class_name = some "h-14 w-28 rounded-l-md rounded-r-none";
          attrs = [];
          children = nothing;
        }))
        ∷ (skeleton L
            (record { class_name = some "h-14 w-28 rounded-none"; attrs = []; children = nothing }))
        ∷ (skeleton L (record {
          class_name = some "h-14 w-28 rounded-r-md rounded-l-none";
          attrs = [];
          children = nothing;
        }))
        ∷ []))

  unfoldable pub chart_rows : Node M
  unfolding skeleton
  chart_rows =
      element (host "div")
        (("className", str "flex h-52 items-end gap-3 rounded-md border p-4") ∷ [])
        (many (
          (skeleton L (record {
            class_name = some "flex-1 rounded-md";
            attrs = ("style", style (("height", "45%") ∷ [])) ∷ [];
            children = nothing;
          }))
          ∷ (skeleton L (record {
            class_name = some "flex-1 rounded-md";
            attrs = ("style", style (("height", "70%") ∷ [])) ∷ [];
            children = nothing;
          }))
          ∷ (skeleton L (record {
            class_name = some "flex-1 rounded-md";
            attrs = ("style", style (("height", "55%") ∷ [])) ∷ [];
            children = nothing;
          }))
          ∷ (skeleton L (record {
            class_name = some "flex-1 rounded-md";
            attrs = ("style", style (("height", "88%") ∷ [])) ∷ [];
            children = nothing;
          }))
          ∷ (skeleton L (record {
            class_name = some "flex-1 rounded-md";
            attrs = ("style", style (("height", "64%") ∷ [])) ∷ [];
            children = nothing;
          }))
          ∷ []))

  unfoldable pub control_rows : Node M
  unfolding skeleton
  control_rows = element (host "div") (("className", str "flex items-center gap-3") ∷ []) (
      many (
        (skeleton L (record {
          class_name = some "size-[18px] shrink-0 rounded-md";
          attrs = [];
          children = nothing;
        }))
        ∷ (skeleton L
            (record { class_name = some "h-5 w-36 rounded-md"; attrs = []; children = nothing }))
        ∷ []))

  unfoldable pub form_rows : Node M
  unfolding skeleton field_rows
  form_rows =
      (many (
        (field_rows)
        ∷ (field_rows)
        ∷ (skeleton L
            (record { class_name = some "h-14 w-full rounded-md"; attrs = []; children = nothing }))
        ∷ []))

  unfoldable pub list_rows : Node M
  unfolding skeleton
  list_rows = element (host "div") (("className", str "space-y-0 rounded-md border p-2") ∷ []) (
      many (
        (element (host "div") (("className", str "flex h-12 items-center gap-3 px-2") ∷ []) (
          many (
            (skeleton L (record {
              class_name = some "size-[18px] shrink-0 rounded-md";
              attrs = [];
              children = nothing;
            }))
            ∷ (skeleton L (record {
              class_name = some (cn L (lit "h-5 rounded-md" ∷ lit "w-4/5" ∷ []));
              attrs = [];
              children = nothing;
            }))
            ∷ [])))
        ∷ (element (host "div") (("className", str "flex h-12 items-center gap-3 px-2") ∷ []) (
            many (
              (skeleton L (record {
                class_name = some "size-[18px] shrink-0 rounded-md";
                attrs = [];
                children = nothing;
              }))
              ∷ (skeleton L (record {
                class_name = some (cn L (lit "h-5 rounded-md" ∷ lit "w-3/5" ∷ []));
                attrs = [];
                children = nothing;
              }))
              ∷ [])))
        ∷ (element (host "div") (("className", str "flex h-12 items-center gap-3 px-2") ∷ []) (
            many (
              (skeleton L (record {
                class_name = some "size-[18px] shrink-0 rounded-md";
                attrs = [];
                children = nothing;
              }))
              ∷ (skeleton L (record {
                class_name = some (cn L (lit "h-5 rounded-md" ∷ lit "w-2/3" ∷ []));
                attrs = [];
                children = nothing;
              }))
              ∷ [])))
        ∷ []))
