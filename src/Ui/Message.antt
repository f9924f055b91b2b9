-- ===== src/Ui/Message.antt =====
-- The components of app/frontend/components/ui/message/message.tsx.
use opanel.Common.{String, Option, [], ◌∷◌, or_else}
use opanel.Dom.{Props, Node, host, str}
use opanel.Ui.Cn.{ClassLibs, lit}
use opanel.Ui.Part.{part}

module _ {M : Type 0} (L : ClassLibs) where
  unfoldable pub message_group : Props M → Node M
  message_group p =
      part L (host "div") "message-group" [] (lit "flex min-w-0 flex-col gap-2" ∷ []) p

  unfoldable pub message : Option String → Props M → Node M
  message align p =
      part L (host "div") "message" (("data-align", str (or_else align "start")) ∷ [])
        (lit
            "group/message relative flex w-full min-w-0 gap-2 text-lg data-[align=end]:flex-row-reverse"
          ∷ [])
        p

  unfoldable pub message_avatar : Props M → Node M
  message_avatar p =
      part L (host "div") "message-avatar" []
        (lit
            "flex w-fit min-w-8 shrink-0 items-center justify-center self-end overflow-hidden rounded-full bg-muted group-has-data-[slot=message-footer]/message:-translate-y-8"
          ∷ [])
        p

  unfoldable pub message_content : Props M → Node M
  message_content p =
      part L (host "div") "message-content" []
        (lit
            "flex w-full min-w-0 flex-col gap-2.5 wrap-break-word group-data-[align=end]/message:*:data-slot:self-end"
          ∷ [])
        p

  unfoldable pub message_header : Props M → Node M
  message_header p =
      part L (host "div") "message-header" []
        (lit
            "flex max-w-full min-w-0 items-center px-3 text-xs font-medium text-muted-foreground group-has-data-[variant=ghost]/message:px-0"
          ∷ [])
        p

  unfoldable pub message_footer : Props M → Node M
  message_footer p =
      part L (host "div") "message-footer" []
        (lit
            "flex max-w-full min-w-0 items-center px-3 text-xs font-medium text-muted-foreground group-has-data-[variant=ghost]/message:px-0 group-data-[align=end]/message:justify-end"
          ∷ [])
        p
