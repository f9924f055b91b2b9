-- ===== src/Pages/Home.antt =====
-- app/frontend/pages/Home.tsx. `usePage` is Inertia's: what it answers is an argument. A render has the
-- state `details_open`; the first has `false`.
pub mod Details
use opanel.Common.{String, Bool, not, Option, some, List, [], ◌∷◌, if◌then◌else◌, or_else}
use opanel.Dom.{
  Node, nothing, text, element, host, foreign, str, bool, handler, many, show_if, given_text,
}
use opanel.React.{SetState}

pub record HomeProps : Type 0 where
  pub platform_name : String
  pub platform_environment : String
  -- `null` is `none`.
  pub error : Option String

abbrev pub Page : Type 0
Page = Node (SetState Bool)

unfoldable pub error_region : Option String → Page
error_region error = show_if (given_text error) (
    element (host "div")
      (("role", str "alert")
        ∷ ("data-testid", str "page-error")
        ∷ (
          "className",
          str
              "border-destructive/40 bg-destructive/10 text-destructive rounded-lg border px-4 py-3 text-sm",
        )
        ∷ [])
      (text (or_else error "")))

unfoldable pub details_toggle : Bool → Page
details_toggle details_open =
    element (host "button")
      (("type", str "button")
        ∷ ("aria-expanded", bool details_open)
        ∷ ("aria-controls", str "platform-details")
        ∷ ("onClick", handler λ e. SetState.updater not ∷ [])
        ∷ ("className", str "text-primary text-sm font-medium underline-offset-4 hover:underline")
        ∷ [])
      (text (if details_open then "Hide details" else "Show details"))

unfoldable pub details : Bool → String → Page
details details_open environment = show_if details_open (
    element (host "dl")
      (("id", str "platform-details")
        ∷ ("className", str "mt-3 grid grid-cols-2 gap-2 text-sm")
        ∷ [])
      (many (
        element (host "dt") (("className", str "text-muted-foreground") ∷ []) (text "Environment")
        ∷ element (host "dd") (("data-testid", str "platform-environment") ∷ []) (text environment)
        ∷ [])))

unfoldable pub home : HomeProps → String → Bool → Page
unfolding error_region details_toggle details
home p request_id details_open = many (
    element (foreign "Head") (("title", str "Home") ∷ []) nothing
    ∷ element (host "main")
        (("className", str "mx-auto flex min-h-screen max-w-2xl flex-col justify-center gap-6 p-8")
          ∷ [])
        (many (
          element (host "header") (("className", str "flex flex-col gap-1") ∷ []) (
            many (
              element (host "h1") (("className", str "text-3xl font-semibold tracking-tight") ∷ [])
                (text p.platform_name)
              ∷ element (host "p") (("className", str "text-muted-foreground text-sm") ∷ [])
                  (text "Cluster-first PaaS control plane.")
              ∷ []))
          ∷ error_region p.error
          ∷ element (host "section")
              (("className", str "border-border bg-card rounded-lg border p-4") ∷ [])
              (many
                (details_toggle details_open ∷ details details_open p.platform_environment ∷ []))
          ∷ element (host "footer") (("className", str "text-muted-foreground text-xs") ∷ []) (
              many (
                text "Request "
                ∷ element (host "code") (("data-testid", str "request-id") ∷ []) (text request_id)
                ∷ []))
          ∷ []))
    ∷ [])
