-- ===== src/Ui/Textarea.antt =====
-- The components of app/frontend/components/ui/textarea/textarea.tsx.
use opanel.Common.{[], ◌∷◌}
use opanel.Dom.{Props, Node, host}
use opanel.Ui.Cn.{ClassLibs, lit}
use opanel.Ui.Part.{part}

module _ {M : Type 0} (L : ClassLibs) where
  unfoldable pub textarea : Props M → Node M
  textarea p =
      part L (host "textarea") "textarea" []
        (lit
            "flex field-sizing-content min-h-16 w-full rounded-md border border-input bg-transparent px-6 py-4 text-lg transition-colors outline-none placeholder:text-muted-foreground focus-visible:border-ring focus-visible:ring-3 focus-visible:ring-ring/50 disabled:cursor-not-allowed disabled:bg-input/50 disabled:opacity-50 aria-invalid:border-destructive aria-invalid:ring-3 aria-invalid:ring-destructive/20 dark:bg-input/30 dark:disabled:bg-input/80 dark:aria-invalid:border-destructive/50 dark:aria-invalid:ring-destructive/40"
          ∷ [])
        p
