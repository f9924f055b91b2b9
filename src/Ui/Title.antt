-- ===== src/Ui/Title.antt =====
-- app/frontend/components/ui/title/title.tsx. `motion.div` is framer-motion's.
use opanel.Common.{
  String, Bool, true, false, Option, none, some, [], ◌∷◌, if◌then◌else◌, or_else, is_some,
}
use opanel.Dom.{
  Props, Node, nothing, element, host, foreign, str, bool, undefined, style, many, spread,
}
use opanel.Ui.Cn.{ClassLibs, Cva, cn, lit, falsy, given}

abbrev pub title_variants : Cva
title_variants = record {
  base = "font-heading font-semibold tracking-tight text-balance text-title";
  variants =
      (
        "size",
        ("sm", "text-2xl") ∷ ("default", "text-4xl") ∷ ("lg", "text-5xl") ∷ ("xl", "text-6xl") ∷ [],
      )
      ∷ [];
  default_variants = ("size", "default") ∷ [];
}

abbrev pub subtitle_variants : Cva
subtitle_variants = record {
  base = "text-subtitle";
  variants =
      (
        "size",
        ("sm", "text-base") ∷ ("default", "text-lg") ∷ ("lg", "text-xl") ∷ ("xl", "text-2xl") ∷ [],
      )
      ∷ [];
  default_variants = ("size", "default") ∷ [];
}

pub record TitleProps (M : Type 0) : Type 0 where
  pub title : Node M
  -- `null` and `undefined` are `none`.
  pub subtitle : Option (Node M)
  pub icon : Option (Node M)
  pub heading : Option String
  pub size : Option String
  pub animated : Option Bool
  pub rest : Props M

module _ {M : Type 0} (L : ClassLibs) where
  unfoldable pub title_icon : Option (Node M) → Node M
  title_icon none = nothing
  title_icon (some icon) =
      element (host "span")
        (("data-slot", str "title-icon")
          ∷ ("className", str "shrink-0 [&_svg]:size-[1em] [&_svg]:shrink-0")
          ∷ ("aria-hidden", str "true")
          ∷ [])
        icon

  unfoldable pub title_subtitle : String → Option (Node M) → Node M
  title_subtitle size none = nothing
  title_subtitle size (some subtitle) =
      element (host "p")
        (("data-slot", str "title-subtitle")
          ∷ (
            "className",
            str (cn L (lit (L.cva subtitle_variants (("size", some size) ∷ []) none) ∷ [])),
          )
          ∷ [])
        subtitle

  unfoldable pub title_view : TitleProps M → Node M
  unfolding title_icon title_subtitle
  title_view p =
      let size = or_else p.size "default" in
      let animated = or_else p.animated true in
      element (foreign "motion.div")
        (spread
          (("data-slot", str "title")
            ∷ ("data-size", str size)
            ∷ ("className", str (cn L (lit "flex flex-col gap-1" ∷ given p.rest.class_name ∷ [])))
            ∷ (
              "initial",
              if animated then style (("opacity", "0") ∷ ("x", "-16") ∷ []) else bool false,
            )
            ∷ (
              "animate",
              if animated then style (("opacity", "1") ∷ ("x", "0") ∷ []) else undefined,
            )
            ∷ ("transition", style (("duration", "0.4") ∷ ("ease", "easeOut") ∷ []))
            ∷ [])
          p.rest.attrs)
        (many (
          element (host (or_else p.heading "h2"))
            (("data-slot", str "title-heading")
              ∷ (
                "className",
                str (
                    cn L (
                      lit (L.cva title_variants (("size", some size) ∷ []) none)
                      ∷ (if is_some p.icon then lit "flex items-center gap-2" else falsy)
                      ∷ [])),
              )
              ∷ [])
            (many (title_icon p.icon ∷ p.title ∷ []))
          ∷ title_subtitle size p.subtitle
          ∷ []))
