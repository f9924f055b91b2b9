-- ===== src/App/Entry.antt =====
-- app/frontend/entrypoints/application.tsx. `import.meta.glob` is Vite's and a parameter; what
-- `createInertiaApp` of Inertia is called with is a value.
use opanel.Common.{String, List, [], ◌∷◌, ◌⊎◌}
use opanel.Common.Codes.{Text}
use opanel.Dom.{Attrs, Node, nothing, element, foreign}
use opanel.App.Resolve.{PageModules, page_title, resolve_page}

-- `import.meta.glob(patterns, { eager: true })`
abbrev pub Glob : Type 0 → Type 0
Glob C = List String → PageModules C

-- `createRoot(el).render(tree)`
pub record Rendered (E M : Type 0) : Type 0 where
  pub el : E
  pub tree : Node M

pub record InertiaOptions (C E M : Type 0) : Type 0 where
  pub title : Text → Text
  pub resolve : Text → Text ⊎ C
  pub setup : E → String → Attrs M → Rendered E M

unfoldable pub pages : {C : Type 0} → Glob C → PageModules C
pages glob = glob ("../pages/**/*.tsx" ∷ "!../pages/**/*.test.tsx" ∷ [])

unfoldable pub inertia_app : {C E M : Type 0} → Glob C → InertiaOptions C E M
unfolding pages page_title resolve_page
inertia_app glob = record {
  title = page_title;
  resolve = λ name. resolve_page (pages glob) name;
  setup = λ el app props. record { el = el; tree = element (foreign app) props nothing };
}
