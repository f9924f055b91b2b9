-- ===== src/Ui/Icons/LineMd.antt =====
-- app/frontend/components/ui/icons/line-md-icons.tsx. The texts of the drawings, `lineMdIconBodies`, are an
-- argument; what `dangerouslySetInnerHTML` is given is the attribute's text.
use opanel.Common.{ℕ, String, true, List, [], ◌∷◌, ◌++◌, ◌-◌, ◌&&◌, leb, map, if◌then◌else◌}
use opanel.Common.Codes.{Text, codes}
use opanel.Dom.{Attrs, Node, nothing, element, host, undefined, str, num, bool, get, spread, truthy}

-- `icon[0].toUpperCase()` of a name in the table, which starts with a letter from a to z.
abbrev upper : ℕ → ℕ
upper c = if leb b'a' c && leb c b'z' then c - 32 else c

abbrev pub capitalised : Text → Text
capitalised [] = []
capitalised (c ∷ rest) = upper c ∷ rest

unfoldable pub line_md_display_name : Text → Text
line_md_display_name icon = codes "LineMd" ++ (capitalised icon ++ codes "Icon")

module _ {M : Type 0} (bodies : String → String) where
  unfoldable pub line_md_icon : String → Attrs M → Node M
  unfolding get
  line_md_icon icon props =
      element (host "svg")
        (spread
          (spread
            (("xmlns", str "http://www.w3.org/2000/svg")
              ∷ ("viewBox", str "0 0 24 24")
              ∷ ("width", num 18)
              ∷ ("height", num 18)
              ∷ ("focusable", str "false")
              ∷ ("aria-hidden", if truthy (get "aria-label" props) then undefined else bool true)
              ∷ [])
            props)
          (("dangerouslySetInnerHTML", str (bodies icon)) ∷ []))
        nothing

  -- What `createLineMdIcon` makes: the name that tools show, and the component.
  unfoldable pub create_line_md_icon : String → Text × (Attrs M → Node M)
  unfolding line_md_display_name line_md_icon
  create_line_md_icon icon = (line_md_display_name (codes icon), line_md_icon icon)

  abbrev named : String → String × Text × (Attrs M → Node M)
  unfolding create_line_md_icon
  named name = let made = create_line_md_icon name in (name, made.0, made.1)

  unfoldable pub line_md_icons : List (String × Text × (Attrs M → Node M))
  unfolding create_line_md_icon
  line_md_icons = map named (
      "account" ∷ "alert" ∷ "alertCircle" ∷ "arrowDown" ∷ "arrowsVertical" ∷ "calendar" ∷ "checkAll"
      ∷ "chevronDown" ∷ "chevronLeft" ∷ "chevronRight" ∷ "chevronUp" ∷ "clipboard" ∷ "close"
      ∷ "closeCircle" ∷ "cloudUpload" ∷ "cog" ∷ "confirm" ∷ "confirmCircle" ∷ "documentCode"
      ∷ "edit" ∷ "email" ∷ "emojiSmile" ∷ "file" ∷ "fileDocument" ∷ "folderMusic" ∷ "folderTwotone"
      ∷ "folderZip" ∷ "grid" ∷ "home" ∷ "image" ∷ "loading" ∷ "menu" ∷ "menuFoldLeft" ∷ "minus"
      ∷ "play" ∷ "plus" ∷ "rotate" ∷ "search" ∷ "speed" ∷ "star" ∷ "textBox" ∷ "upload" ∷ [])
