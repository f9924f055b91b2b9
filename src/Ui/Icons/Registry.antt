-- ===== src/Ui/Icons/Registry.antt =====
-- The table `Icons` of app/frontend/components/ui/icons/icons.tsx: for each name the icon of the package
-- and the name that tools show; `logo`, which is drawn here, stands by itself.
use opanel.Common.{String, true, List, [], ◌∷◌, if◌then◌else◌}
use opanel.Dom.{
  Attrs, Node, nothing, element, host, undefined, str, num, bool, many, get, spread, truthy,
}

abbrev pub icons_before_logo : List (String × String × String)
icons_before_logo =
    ("account", "UserCircleFreeIcons", "AccountIcon")
    ∷ ("actions", "MoreHorizontalFreeIcons", "ActionsIcon")
    ∷ ("alert", "Alert01FreeIcons", "AlertIcon")
    ∷ ("alertCircle", "AlertCircleFreeIcons", "AlertCircleIcon")
    ∷ ("arrowDown", "ArrowDown01FreeIcons", "ArrowDownIcon")
    ∷ ("arrowsVertical", "ArrowUpDownFreeIcons", "ArrowsVerticalIcon")
    ∷ ("book", "BookOpen01FreeIcons", "BookIcon")
    ∷ ("calendar", "Calendar03FreeIcons", "CalendarIcon")
    ∷ ("checkAll", "CheckCheckFreeIcons", "CheckAllIcon")
    ∷ ("chevronDown", "ChevronDownFreeIcons", "ChevronDownIcon")
    ∷ ("chevronLeft", "ChevronLeftFreeIcons", "ChevronLeftIcon")
    ∷ ("chevronRight", "ChevronRightFreeIcons", "ChevronRightIcon")
    ∷ ("chevronUp", "ChevronUpFreeIcons", "ChevronUpIcon")
    ∷ ("clipboard", "ClipboardFreeIcons", "ClipboardIcon")
    ∷ ("close", "Cancel01FreeIcons", "CloseIcon")
    ∷ ("closeCircle", "CancelCircleFreeIcons", "CloseCircleIcon")
    ∷ ("cloudUpload", "CloudUploadFreeIcons", "CloudUploadIcon")
    ∷ ("cog", "Settings02FreeIcons", "CogIcon")
    ∷ ("columns", "SlidersHorizontalFreeIcons", "ColumnsIcon")
    ∷ ("component", "PackageFreeIcons", "ComponentIcon")
    ∷ ("confirm", "Tick02FreeIcons", "ConfirmIcon")
    ∷ ("confirmCircle", "CheckmarkCircle02FreeIcons", "ConfirmCircleIcon")
    ∷ ("coupon", "CouponPercentFreeIcons", "CouponIcon")
    ∷ ("creditCard", "CreditCardFreeIcons", "CreditCardIcon")
    ∷ ("documentCode", "FileCodeFreeIcons", "DocumentCodeIcon")
    ∷ ("drag", "GripVerticalFreeIcons", "DragIcon")
    ∷ ("edit", "Edit01FreeIcons", "EditIcon")
    ∷ ("email", "Mail01FreeIcons", "EmailIcon")
    ∷ ("emojiSmile", "SmileFreeIcons", "EmojiSmileIcon")
    ∷ ("eye", "ViewFreeIcons", "EyeIcon")
    ∷ ("eyeOff", "ViewOffSlashFreeIcons", "EyeOffIcon")
    ∷ ("file", "File01FreeIcons", "FileIcon")
    ∷ ("fileDocument", "File02FreeIcons", "FileDocumentIcon")
    ∷ ("folderMusic", "FolderMusicFreeIcons", "FolderMusicIcon")
    ∷ ("folderOpen", "FolderOpenFreeIcons", "FolderOpenIcon")
    ∷ ("folderTwotone", "Folder02FreeIcons", "FolderIcon")
    ∷ ("folderZip", "FileZipFreeIcons", "FolderZipIcon")
    ∷ ("grid", "GridTableFreeIcons", "GridIcon")
    ∷ ("home", "Home01FreeIcons", "HomeIcon")
    ∷ ("image", "Image02FreeIcons", "ImageIcon")
    ∷ ("loading", "Loading03FreeIcons", "LoadingIcon")
    ∷ []

abbrev pub icons_after_logo : List (String × String × String)
icons_after_logo =
    ("menu", "Menu01FreeIcons", "MenuIcon")
    ∷ ("menuFoldLeft", "PanelLeftCloseFreeIcons", "MenuFoldLeftIcon")
    ∷ ("minus", "MinusSignFreeIcons", "MinusIcon")
    ∷ ("notification", "Notification02FreeIcons", "NotificationIcon")
    ∷ ("play", "PlayFreeIcons", "PlayIcon")
    ∷ ("plus", "Add01FreeIcons", "PlusIcon")
    ∷ ("rotate", "RefreshFreeIcons", "RotateIcon")
    ∷ ("rocket", "Rocket01FreeIcons", "RocketIcon")
    ∷ ("search", "Search01FreeIcons", "SearchIcon")
    ∷ ("securityCheck", "SecurityCheckFreeIcons", "SecurityCheckIcon")
    ∷ ("speed", "DashboardSpeed01FreeIcons", "SpeedIcon")
    ∷ ("spinner", "Loading03FreeIcons", "SpinnerIcon")
    ∷ ("star", "StarFreeIcons", "StarIcon")
    ∷ ("textBox", "TextSquareFreeIcons", "TextBoxIcon")
    ∷ ("upload", "Upload01FreeIcons", "UploadIcon")
    ∷ []

module _ {M : Type 0} where
  unfoldable pub logo : Attrs M → Node M
  unfolding get
  logo props =
      element (host "svg")
        (spread
          (("xmlns", str "http://www.w3.org/2000/svg")
            ∷ ("viewBox", str "0 0 24 24")
            ∷ ("width", num 18)
            ∷ ("height", num 18)
            ∷ ("fill", str "none")
            ∷ ("stroke", str "currentColor")
            ∷ ("strokeWidth", str "2")
            ∷ ("strokeLinecap", str "round")
            ∷ ("strokeLinejoin", str "round")
            ∷ ("aria-hidden", if truthy (get "aria-label" props) then undefined else bool true)
            ∷ [])
          props)
        (many (
          element (host "path")
            ((
              "d",
              str
                  "M2.5 16.88a1 1 0 0 1-.32-1.43l9-13.02a1 1 0 0 1 1.64 0l9 13.01a1 1 0 0 1-.32 1.44l-8.51 4.86a2 2 0 0 1-1.98 0Z",
            )
              ∷ [])
            nothing
          ∷ element (host "path") (("d", str "M12 2v20") ∷ []) nothing
          ∷ []))
