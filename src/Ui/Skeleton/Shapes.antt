-- ===== src/Ui/Skeleton/Shapes.antt =====
-- Contents of placeholders of app/frontend/components/ui/skeleton/skeleton-layout.tsx: message,
-- navigation, otp, overlay, pagination, panel, profile.
use opanel.Common.{some, [], ◌∷◌}
use opanel.Dom.{Node, nothing, element, host, str, style, many}
use opanel.Ui.Cn.{ClassLibs}
use opanel.Ui.Skeleton.{skeleton}

module _ {M : Type 0} (L : ClassLibs) where
  unfoldable pub message_rows : Node M
  unfolding skeleton
  message_rows = element (host "div") (("className", str "flex items-end gap-3") ∷ []) (
      many (
        (skeleton L (record {
          class_name = some "size-9 shrink-0 rounded-full";
          attrs = [];
          children = nothing;
        }))
        ∷ (element (host "div") (("className", str "w-3/4 space-y-2 rounded-md border p-3") ∷ []) (
            many (
              (skeleton L (record {
                class_name = some "h-5 w-2/5 rounded-md";
                attrs = [];
                children = nothing;
              }))
              ∷ (skeleton L (record {
                class_name = some "h-5 w-full rounded-md";
                attrs = [];
                children = nothing;
              }))
              ∷ [])))
        ∷ []))

  unfoldable pub navigation_rows : Node M
  unfolding skeleton
  navigation_rows =
      element (host "div") (("className", str "w-72 space-y-2 rounded-md border p-3") ∷ []) (
        many (
          (skeleton L (record {
            class_name = some "mb-4 h-10 w-3/5 rounded-md";
            attrs = [];
            children = nothing;
          }))
          ∷ ((many (
              (skeleton L (record {
                class_name = some "h-12 w-full rounded-md";
                attrs = [];
                children = nothing;
              }))
              ∷ (skeleton L (record {
                class_name = some "h-12 w-full rounded-md";
                attrs = [];
                children = nothing;
              }))
              ∷ (skeleton L (record {
                class_name = some "h-12 w-full rounded-md";
                attrs = [];
                children = nothing;
              }))
              ∷ (skeleton L (record {
                class_name = some "h-12 w-full rounded-md";
                attrs = [];
                children = nothing;
              }))
              ∷ [])))
          ∷ []))

  unfoldable pub otp_rows : Node M
  unfolding skeleton
  otp_rows = element (host "div") (("className", str "flex w-full gap-2") ∷ []) (
      many (
        (skeleton L (record {
          class_name = some "h-14 min-w-0 flex-1 rounded-md";
          attrs = [];
          children = nothing;
        }))
        ∷ (skeleton L (record {
          class_name = some "h-14 min-w-0 flex-1 rounded-md";
          attrs = [];
          children = nothing;
        }))
        ∷ (skeleton L (record {
          class_name = some "h-14 min-w-0 flex-1 rounded-md";
          attrs = [];
          children = nothing;
        }))
        ∷ (skeleton L (record {
          class_name = some "h-14 min-w-0 flex-1 rounded-md";
          attrs = [];
          children = nothing;
        }))
        ∷ (skeleton L (record {
          class_name = some "h-14 min-w-0 flex-1 rounded-md";
          attrs = [];
          children = nothing;
        }))
        ∷ (skeleton L (record {
          class_name = some "h-14 min-w-0 flex-1 rounded-md";
          attrs = [];
          children = nothing;
        }))
        ∷ []))

  unfoldable pub overlay_rows : Node M
  unfolding skeleton
  overlay_rows =
      element (host "div")
        ((
          "className",
          str
              "w-full max-w-sm space-y-4 rounded-md border p-5 shadow-2xl shadow-(color:--shadow-surface)",
        )
          ∷ [])
        (many (
          (skeleton L
            (record { class_name = some "h-6 w-2/5 rounded-md"; attrs = []; children = nothing }))
          ∷ (skeleton L (record {
            class_name = some "h-5 w-full rounded-md";
            attrs = [];
            children = nothing;
          }))
          ∷ (skeleton L
              (record { class_name = some "h-5 w-4/5 rounded-md"; attrs = []; children = nothing }))
          ∷ (element (host "div") (("className", str "flex justify-end gap-2 pt-2") ∷ []) (
              many (
                (skeleton L (record {
                  class_name = some "h-12 w-28 rounded-md";
                  attrs = [];
                  children = nothing;
                }))
                ∷ (skeleton L (record {
                  class_name = some "h-12 w-28 rounded-md";
                  attrs = [];
                  children = nothing;
                }))
                ∷ [])))
          ∷ []))

  unfoldable pub pagination_rows : Node M
  unfolding skeleton
  pagination_rows = element (host "div") (("className", str "flex gap-2") ∷ []) (
      many (
        (skeleton L (record {
          class_name = some "h-10 rounded-md";
          attrs = ("style", style (("width", "64px") ∷ [])) ∷ [];
          children = nothing;
        }))
        ∷ (skeleton L (record {
          class_name = some "h-10 rounded-md";
          attrs = ("style", style (("width", "40px") ∷ [])) ∷ [];
          children = nothing;
        }))
        ∷ (skeleton L (record {
          class_name = some "h-10 rounded-md";
          attrs = ("style", style (("width", "40px") ∷ [])) ∷ [];
          children = nothing;
        }))
        ∷ (skeleton L (record {
          class_name = some "h-10 rounded-md";
          attrs = ("style", style (("width", "40px") ∷ [])) ∷ [];
          children = nothing;
        }))
        ∷ (skeleton L (record {
          class_name = some "h-10 rounded-md";
          attrs = ("style", style (("width", "64px") ∷ [])) ∷ [];
          children = nothing;
        }))
        ∷ []))

  unfoldable pub panel_rows : Node M
  unfolding skeleton
  panel_rows = element (host "div") (("className", str "space-y-4 rounded-md border p-5") ∷ []) (
      many (
        (skeleton L
          (record { class_name = some "h-6 w-2/5 rounded-md"; attrs = []; children = nothing }))
        ∷ (skeleton L
            (record { class_name = some "h-5 w-full rounded-md"; attrs = []; children = nothing }))
        ∷ (skeleton L
            (record { class_name = some "h-5 w-4/5 rounded-md"; attrs = []; children = nothing }))
        ∷ []))

  unfoldable pub profile_rows : Node M
  unfolding skeleton
  profile_rows =
      element (host "div") (("className", str "flex h-14 items-center gap-3 rounded-md p-2") ∷ []) (
        many (
          (skeleton L (record {
            class_name = some "size-10 shrink-0 rounded-md";
            attrs = [];
            children = nothing;
          }))
          ∷ (element (host "div") (("className", str "min-w-0 flex-1 space-y-2") ∷ []) (
              many (
                (skeleton L (record {
                  class_name = some "h-5 w-2/5 rounded-md";
                  attrs = [];
                  children = nothing;
                }))
                ∷ (skeleton L (record {
                  class_name = some "h-4 w-3/5 rounded-md";
                  attrs = [];
                  children = nothing;
                }))
                ∷ [])))
          ∷ (skeleton L (record {
            class_name = some "size-[18px] rounded-md";
            attrs = [];
            children = nothing;
          }))
          ∷ []))
