-- ===== src/Ui/ScrollArea.antt =====
-- The components of app/frontend/components/ui/scroll-area/scroll-area.tsx.
use opanel.Common.{String, Option, none, [], ◌∷◌, or_else}
use opanel.Dom.{Props, Node, nothing, element, foreign, str, many, spread}
use opanel.Ui.Cn.{ClassLibs, cn, lit, given}

module _ {M : Type 0} (L : ClassLibs) where
  unfoldable pub scroll_bar : Option String → Props M → Node M
  scroll_bar orientation p =
      element (foreign "ScrollArea.ScrollAreaScrollbar")
        (spread
          (("data-slot", str "scroll-area-scrollbar")
            ∷ ("data-orientation", str (or_else orientation "vertical"))
            ∷ ("orientation", str (or_else orientation "vertical"))
            ∷ (
              "className",
              str (
                  cn L (
                    lit
                      "flex touch-none p-px transition-colors select-none data-horizontal:h-2.5 data-horizontal:flex-col data-horizontal:border-t data-horizontal:border-t-transparent data-vertical:h-full data-vertical:w-2.5 data-vertical:border-l data-vertical:border-l-transparent"
                    ∷ given p.class_name
                    ∷ [])),
            )
            ∷ [])
          p.attrs)
        (element (foreign "ScrollArea.ScrollAreaThumb")
          (("data-slot", str "scroll-area-thumb")
            ∷ ("className", str "bg-secondary relative flex-1 rounded-full")
            ∷ [])
          nothing)

  unfoldable pub scroll_area : Props M → Node M
  unfolding scroll_bar
  scroll_area p =
      element (foreign "ScrollArea.Root")
        (spread
          (("data-slot", str "scroll-area")
            ∷ ("className", str (cn L (lit "relative" ∷ given p.class_name ∷ [])))
            ∷ [])
          p.attrs)
        (many (
          (element (foreign "ScrollArea.Viewport")
            (("data-slot", str "scroll-area-viewport")
              ∷ (
                "className",
                str
                    "size-full rounded-xs transition-[color,box-shadow] outline-none focus-visible:ring-3 focus-visible:ring-ring/50 focus-visible:outline-1",
              )
              ∷ [])
            p.children)
          ∷ (scroll_bar none (record { class_name = none; attrs = []; children = nothing }))
          ∷ (element (foreign "ScrollArea.Corner") ([]) nothing)
          ∷ []))
