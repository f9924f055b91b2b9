-- ===== src/Ui/Skeleton/Panels.antt =====
-- Contents of placeholders of app/frontend/components/ui/skeleton/skeleton-layout.tsx: slider,
-- table, tabs, textarea, title, upload.
use opanel.Common.{some, [], ◌∷◌}
use opanel.Dom.{Node, nothing, element, host, str, many}
use opanel.Ui.Cn.{ClassLibs}
use opanel.Ui.Skeleton.{skeleton}

module _ {M : Type 0} (L : ClassLibs) where
  unfoldable pub slider_rows : Node M
  unfolding skeleton
  slider_rows = element (host "div") (("className", str "relative flex h-8 items-center") ∷ []) (
      many (
        (skeleton L
          (record { class_name = some "h-2 w-full rounded-full"; attrs = []; children = nothing }))
        ∷ (skeleton L (record {
          class_name = some "absolute left-1/2 size-[18px] -translate-x-1/2 rounded-full";
          attrs = [];
          children = nothing;
        }))
        ∷ []))

  unfoldable pub table_rows : Node M
  unfolding skeleton
  table_rows = element (host "div") (("className", str "overflow-hidden rounded-md border") ∷ []) (
      many (
        (element (host "div")
          (("className", str "grid grid-cols-3 gap-4 border-b p-3 last:border-b-0") ∷ [])
          (many (
            (skeleton L
              (record { class_name = some "h-5 rounded-md"; attrs = []; children = nothing }))
            ∷ (skeleton L
                (record { class_name = some "h-5 rounded-md"; attrs = []; children = nothing }))
            ∷ (skeleton L
                (record { class_name = some "h-5 rounded-md"; attrs = []; children = nothing }))
            ∷ [])))
        ∷ (element (host "div")
            (("className", str "grid grid-cols-3 gap-4 border-b p-3 last:border-b-0") ∷ [])
            (many (
              (skeleton L
                (record { class_name = some "h-5 rounded-md"; attrs = []; children = nothing }))
              ∷ (skeleton L
                  (record { class_name = some "h-5 rounded-md"; attrs = []; children = nothing }))
              ∷ (skeleton L
                  (record { class_name = some "h-5 rounded-md"; attrs = []; children = nothing }))
              ∷ [])))
        ∷ (element (host "div")
            (("className", str "grid grid-cols-3 gap-4 border-b p-3 last:border-b-0") ∷ [])
            (many (
              (skeleton L
                (record { class_name = some "h-5 rounded-md"; attrs = []; children = nothing }))
              ∷ (skeleton L
                  (record { class_name = some "h-5 rounded-md"; attrs = []; children = nothing }))
              ∷ (skeleton L
                  (record { class_name = some "h-5 rounded-md"; attrs = []; children = nothing }))
              ∷ [])))
        ∷ (element (host "div")
            (("className", str "grid grid-cols-3 gap-4 border-b p-3 last:border-b-0") ∷ [])
            (many (
              (skeleton L
                (record { class_name = some "h-5 rounded-md"; attrs = []; children = nothing }))
              ∷ (skeleton L
                  (record { class_name = some "h-5 rounded-md"; attrs = []; children = nothing }))
              ∷ (skeleton L
                  (record { class_name = some "h-5 rounded-md"; attrs = []; children = nothing }))
              ∷ [])))
        ∷ []))

  unfoldable pub tabs_rows : Node M
  unfolding skeleton
  tabs_rows =
      (many (
        (element (host "div") (("className", str "flex gap-2 rounded-md bg-muted p-1") ∷ []) (
          many (
            (skeleton L (record {
              class_name = some "h-10 flex-1 rounded-md";
              attrs = [];
              children = nothing;
            }))
            ∷ (skeleton L (record {
              class_name = some "h-10 flex-1 rounded-md";
              attrs = [];
              children = nothing;
            }))
            ∷ (skeleton L (record {
              class_name = some "h-10 flex-1 rounded-md";
              attrs = [];
              children = nothing;
            }))
            ∷ [])))
        ∷ (skeleton L
            (record { class_name = some "h-32 w-full rounded-md"; attrs = []; children = nothing }))
        ∷ []))

  unfoldable pub textarea_rows : Node M
  unfolding skeleton
  textarea_rows =
      (many (
        (skeleton L
          (record { class_name = some "h-5 w-28 rounded-md"; attrs = []; children = nothing }))
        ∷ (skeleton L
            (record { class_name = some "h-32 w-full rounded-md"; attrs = []; children = nothing }))
        ∷ []))

  unfoldable pub title_rows : Node M
  unfolding skeleton
  title_rows =
      (many (
        (skeleton L
          (record { class_name = some "h-8 w-1/2 rounded-md"; attrs = []; children = nothing }))
        ∷ (skeleton L
            (record { class_name = some "h-5 w-3/4 rounded-md"; attrs = []; children = nothing }))
        ∷ []))

  unfoldable pub upload_rows : Node M
  unfolding skeleton
  upload_rows =
      element (host "div")
        ((
          "className",
          str
              "flex h-40 flex-col items-center justify-center gap-3 rounded-md border border-dashed",
        )
          ∷ [])
        (many (
          (skeleton L
            (record { class_name = some "size-10 rounded-md"; attrs = []; children = nothing }))
          ∷ (skeleton L
              (record { class_name = some "h-5 w-1/2 rounded-md"; attrs = []; children = nothing }))
          ∷ (skeleton L
              (record { class_name = some "h-4 w-1/3 rounded-md"; attrs = []; children = nothing }))
          ∷ []))
