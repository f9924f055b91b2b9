-- ===== src/Ui/Skeleton/Own.antt =====
-- The placeholders with a shape of their own: of the data table, the shell and the notifications.
use opanel.Common.{none, some, [], ◌∷◌}
use opanel.Dom.{Props, Node, nothing, element, host, str, many, spread}
use opanel.Ui.Cn.{ClassLibs, cn, lit, given}
use opanel.Ui.Skeleton.{skeleton}
use opanel.Ui.Skeleton.Named.{skeleton_table, skeleton_input, skeleton_button, skeleton_pagination}

module _ {M : Type 0} (L : ClassLibs) where
  unfoldable pub skeleton_data_table : Props M → Node M
  skeleton_data_table p =
      element (host "div")
        (spread
          (("data-slot", str "skeleton-data-table")
            ∷ ("aria-hidden", str "true")
            ∷ ("className", str (cn L (lit "w-full space-y-4" ∷ given p.class_name ∷ [])))
            ∷ [])
          p.attrs)
        (many (
          (element (host "div")
            (("className", str "flex flex-col gap-3 sm:flex-row sm:items-end") ∷ [])
            (many (
              ((skeleton_input L).render
                (record { class_name = some "sm:max-w-md"; attrs = []; children = nothing }))
              ∷ ((skeleton_button L).render (record {
                class_name = some "sm:ml-auto sm:w-36";
                attrs = [];
                children = nothing;
              }))
              ∷ [])))
          ∷ ((skeleton_table L).render
              (record { class_name = none; attrs = []; children = nothing }))
          ∷ (element (host "div")
              ((
                "className",
                str "flex flex-col gap-4 px-2 sm:flex-row sm:items-center sm:justify-between",
              )
                ∷ [])
              (many (
                (skeleton L (record {
                  class_name = some "h-5 w-52 rounded-md";
                  attrs = [];
                  children = nothing;
                }))
                ∷ ((skeleton_pagination L).render
                    (record { class_name = some "sm:w-auto"; attrs = []; children = nothing }))
                ∷ [])))
          ∷ []))

  unfoldable pub skeleton_app_shell : Props M → Node M
  skeleton_app_shell p =
      element (host "div")
        (spread
          (("data-slot", str "skeleton-app-shell")
            ∷ ("aria-hidden", str "true")
            ∷ (
              "className",
              str (
                  cn L (
                    lit "relative flex h-svh w-full overflow-hidden bg-app-shell pt-16"
                    ∷ given p.class_name
                    ∷ [])),
            )
            ∷ [])
          p.attrs)
        (many (
          (element (host "div")
            (("className", str "absolute inset-x-0 top-0 flex h-16 items-center gap-3 px-[19px]")
              ∷ [])
            (many (
              (skeleton L (record {
                class_name = some "size-7 bg-app-shell-accent";
                attrs = [];
                children = nothing;
              }))
              ∷ (skeleton L (record {
                class_name = some "size-10 bg-primary/40";
                attrs = [];
                children = nothing;
              }))
              ∷ (skeleton L (record {
                class_name = some "h-5 w-32 bg-app-shell-accent";
                attrs = [];
                children = nothing;
              }))
              ∷ [])))
          ∷ (element (host "div")
              (("className", str "hidden w-72 shrink-0 space-y-3 p-3 md:block") ∷ [])
              (many (
                (skeleton L (record {
                  class_name = some "h-12 w-full bg-app-shell-accent";
                  attrs = [];
                  children = nothing;
                }))
                ∷ (skeleton L (record {
                  class_name = some "h-12 w-full bg-app-shell-accent";
                  attrs = [];
                  children = nothing;
                }))
                ∷ (skeleton L (record {
                  class_name = some "h-12 w-full bg-app-shell-accent";
                  attrs = [];
                  children = nothing;
                }))
                ∷ (skeleton L (record {
                  class_name = some "h-12 w-full bg-app-shell-accent";
                  attrs = [];
                  children = nothing;
                }))
                ∷ [])))
          ∷ (element (host "div")
              ((
                "className",
                str
                    "flex flex-1 flex-col gap-6 rounded-t-xl bg-card p-6 shadow-2xl shadow-primary/20",
              )
                ∷ [])
              (many (
                (skeleton L
                  (record { class_name = some "h-8 w-52"; attrs = []; children = nothing }))
                ∷ (skeleton L (record {
                  class_name = some "h-5 w-80 max-w-full";
                  attrs = [];
                  children = nothing;
                }))
                ∷ (element (host "div")
                    (("className", str "grid gap-4 sm:grid-cols-2 xl:grid-cols-4") ∷ [])
                    (many (
                      (skeleton L (record {
                        class_name = some "h-32 w-full rounded-md";
                        attrs = [];
                        children = nothing;
                      }))
                      ∷ (skeleton L (record {
                        class_name = some "h-32 w-full rounded-md";
                        attrs = [];
                        children = nothing;
                      }))
                      ∷ (skeleton L (record {
                        class_name = some "h-32 w-full rounded-md";
                        attrs = [];
                        children = nothing;
                      }))
                      ∷ (skeleton L (record {
                        class_name = some "h-32 w-full rounded-md";
                        attrs = [];
                        children = nothing;
                      }))
                      ∷ [])))
                ∷ (skeleton L (record {
                  class_name = some "min-h-64 w-full flex-1 rounded-md";
                  attrs = [];
                  children = nothing;
                }))
                ∷ [])))
          ∷ []))

  unfoldable pub skeleton_notifications : Props M → Node M
  skeleton_notifications p =
      element (host "div")
        (spread
          (("data-slot", str "skeleton-notifications")
            ∷ ("aria-hidden", str "true")
            ∷ ("className", str (cn L (lit "relative size-11" ∷ given p.class_name ∷ [])))
            ∷ [])
          p.attrs)
        (many (
          (skeleton L
            (record { class_name = some "size-10 rounded-full"; attrs = []; children = nothing }))
          ∷ (skeleton L (record {
            class_name = some "absolute -top-1 -right-1 size-5 rounded-full";
            attrs = [];
            children = nothing;
          }))
          ∷ []))
