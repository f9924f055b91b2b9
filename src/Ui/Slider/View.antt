-- ===== src/Ui/Slider/View.antt =====
-- What `Slider` of app/frontend/components/ui/slider/slider.tsx renders.
use opanel.Common.{
  ℕ, true, String, Option, none, some, is_some, List, [], ◌∷◌, map, if◌then◌else◌, or_else,
}
use opanel.Dom.{
  Arg, Attrs, Node, Value, nothing, text, element, join, host, foreign, str, num, numbers, handler,
  undefined, many, show_if, spread,
}
use opanel.Ui.Cn.{ClassLibs, cn, lit, given}
use opanel.Ui.Slider.{
  Array, items_of, SliderEffect, Slider, least, current_values, handle_value_change,
}

-- The values that the slider's primitive reports.
abbrev pub chosen_values : Arg → List ℕ
chosen_values (Arg.chosen values) = values
chosen_values _ = []

module _ {M : Type 0} where
  abbrev opt_numbers : Option Array → Value (SliderEffect M)
  opt_numbers none = undefined
  opt_numbers (some array) = numbers array.items

  abbrev pub thumb : Node (SliderEffect M)
  thumb =
      element (foreign "Slider.Thumb")
        (("data-slot", str "slider-thumb")
          ∷ (
            "className",
            str
                "relative block size-[18px] shrink-0 rounded-full border border-ring bg-white ring-ring/50 transition-[color,box-shadow] select-none after:absolute after:-inset-2 hover:ring-3 focus-visible:ring-3 focus-visible:outline-hidden active:ring-3 disabled:pointer-events-none disabled:opacity-50",
          )
          ∷ [])
        nothing

  abbrev track : Node (SliderEffect M)
  track =
      element (foreign "Slider.Track")
        (("data-slot", str "slider-track")
          ∷ (
            "className",
            str
                "relative grow overflow-hidden rounded-full bg-muted data-horizontal:h-1.5 data-horizontal:w-full data-vertical:h-full data-vertical:w-1.5",
          )
          ∷ [])
        (element (foreign "Slider.Range")
          (("data-slot", str "slider-range")
            ∷ (
              "className",
              str "absolute bg-primary select-none data-horizontal:h-full data-vertical:w-full",
            )
            ∷ [])
          nothing)

  abbrev pub default_attr : Slider M → Value (SliderEffect M)
  default_attr slider =
      if is_some slider.props.value then undefined else numbers (items_of slider.resolved)

  -- `rest` are the props that are not destructured; the caller's win.
  unfoldable pub slider_root : Slider M → Attrs (SliderEffect M) → Node (SliderEffect M)
  unfolding handle_value_change current_values
  slider_root slider rest =
      element (foreign "Slider.Root")
        (spread
          (("data-slot", str "slider")
            ∷ ("defaultValue", default_attr slider)
            ∷ ("value", opt_numbers slider.props.value)
            ∷ ("min", num (least slider.props))
            ∷ ("max", num (or_else slider.props.max 100))
            ∷ ("orientation", str (or_else slider.props.orientation "horizontal"))
            ∷ (
              "className",
              str
                  "relative flex w-full touch-none items-center select-none data-disabled:opacity-50 data-vertical:h-full data-vertical:min-h-40 data-vertical:w-auto data-vertical:flex-col",
            )
            ∷ (
              "onValueChange",
              handler (λ e. handle_value_change slider.props (chosen_values e.value)),
            )
            ∷ [])
          rest)
        (join track (many (map (λ value. thumb) (current_values slider))))

  -- The values with dashes between them.
  abbrev dashed : (ℕ → Node (SliderEffect M)) → List ℕ → Node (SliderEffect M)
  dashed format [] = nothing
  dashed format (value ∷ rest) = join (join (text " – ") (format value)) (dashed format rest)

  abbrev pub values_shown : (ℕ → Node (SliderEffect M)) → List ℕ → Node (SliderEffect M)
  values_shown format [] = nothing
  values_shown format (value ∷ rest) = join (format value) (dashed format rest)

  slider_values : (ℕ → Node (SliderEffect M)) → Slider M → Node (SliderEffect M)
  unfolding current_values
  slider_values format slider =
      element (host "div")
        (("data-slot", str "slider-values")
          ∷ (
            "className",
            str
                "mt-2 grid grid-cols-3 items-center text-base text-muted-foreground data-[orientation=vertical]:mt-0 data-[orientation=vertical]:flex data-[orientation=vertical]:flex-col data-[orientation=vertical]:justify-between",
          )
          ∷ ("data-orientation", str (or_else slider.props.orientation "horizontal"))
          ∷ [])
        (many (
          element (host "span") [] (format (least slider.props))
          ∷ element (host "output")
              (("className", str "text-center font-medium text-foreground")
                ∷ ("aria-live", str "polite")
                ∷ [])
              (values_shown format (current_values slider))
          ∷ element (host "span") (("className", str "text-right") ∷ [])
              (format (or_else slider.props.max 100))
          ∷ []))

  unfoldable pub slider_view :
      ClassLibs → (ℕ → String) → Slider M → Attrs (SliderEffect M) → Node (SliderEffect M)
  unfolding slider_root slider_values
  slider_view L to_locale_string slider rest =
      let format = or_else slider.props.format_value (λ value. text (to_locale_string value)) in
      element (host "div")
        (("data-slot", str "slider-wrapper")
          ∷ ("data-orientation", str (or_else slider.props.orientation "horizontal"))
          ∷ (
            "className",
            str (
                cn L (
                  lit
                    "w-full data-[orientation=vertical]:flex data-[orientation=vertical]:h-full data-[orientation=vertical]:w-fit data-[orientation=vertical]:gap-3"
                  ∷ given slider.props.class_name
                  ∷ [])),
          )
          ∷ [])
        (join (slider_root slider rest)
          (show_if (or_else slider.props.show_value true) (slider_values format slider)))
