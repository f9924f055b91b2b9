-- ===== src/Pages/Error.antt =====
-- app/frontend/pages/Error.tsx. `usePage` is Inertia's: what it answers is an argument.
use opanel.Common.{ℕ, String, [], ◌∷◌}
use opanel.Common.Decimal.{decimal}
use opanel.Dom.{Node, nothing, text, element, host, foreign, str, many, number, template}

pub record ErrorProps : Type 0 where
  pub status : ℕ
  pub title : String
  pub message : String

unfoldable pub error_page : {M : Type 0} → String → ErrorProps → Node M
error_page request_id p = many (
    element (foreign "Head")
      (("title", str (template (decimal p.status ∷ " " ∷ p.title ∷ []))) ∷ []) nothing
    ∷ element (host "main")
        (("role", str "alert")
          ∷ (
            "className",
            str "mx-auto flex min-h-screen max-w-md flex-col justify-center gap-4 p-8 text-center",
          )
          ∷ [])
        (many (
          element (host "p")
            (("className", str "text-muted-foreground text-sm font-medium")
              ∷ ("data-testid", str "error-status")
              ∷ [])
            (number p.status)
          ∷ element (host "h1") (("className", str "text-2xl font-semibold tracking-tight") ∷ [])
              (text p.title)
          ∷ element (host "p") (("className", str "text-muted-foreground text-sm") ∷ [])
              (text p.message)
          ∷ element (host "p") (("className", str "text-muted-foreground mt-4 text-xs") ∷ []) (
              many (
                text "Quote this when reporting it: "
                ∷ element (host "code") (("data-testid", str "request-id") ∷ []) (text request_id)
                ∷ []))
          ∷ []))
    ∷ [])
