-- ===== src/Lib.antt =====
-- The TypeScript of Opanel: the interface under app/frontend (React components, hooks and helpers)
-- and the support code of the tests, under e2e/support and spec/frontend/support.
--
-- What renders. A component is a function from its props to a `Node` (Dom): elements with their
-- attributes as ordered objects, texts, and rows of children. `Tag.host` is an HTML element,
-- `Tag.foreign` an element of radix-ui, Inertia or an icon package, which is not looked into.
-- `{ ...own, ...props }` is `spread` (Dom), whose laws are in Dom/Attrs. An event handler returns
-- the list of effects that it causes, so a click is run with `fire`. State is React's `useState`:
-- `StateHook` (React) is the interface that a client takes, and `replaying` the implementation that
-- applies the queued updates in order.
--
-- Files and code:
--   Common, Common/*        lists, Boolean tests on numbers, texts as lists of code units, decimals.
--   Dom, Dom/*, React       the tree, its attributes, reading and clicking in it, and hooks.
--   Ui/*                    app/frontend/components/ui/<name>/<name>.tsx, one file each, with the
--                           functions in snake case (`DropdownMenuItem` is `dropdown_menu_item`). A
--                           destructured prop is an argument, an `Option` of its type; the others
--                           are in the record `Props`. Ui/Cn is `cn` of app/frontend/lib/utils.ts;
--                           Ui/Part is the shape that most components share; Ui/Contract what such a part
--                           promises, and the families of parts that keep it.
--                           Ui/Icons/* are the tables of icons. Ui/Skeleton/Layout is the placeholder
--                           of each variant, from the contents in Rows, Shapes and Panels; Named and
--                           Own are the placeholders that the components export.
--   Ui/DataTable/*          app/frontend/components/ui/table/data-table*.tsx: Columns, View, Pagination and
--                           ColumnHeader, each with what it shows; Features is what the package is
--                           asked for; Pagination/Session is a table over time, whose buttons are clicked and whose page size is chosen.
--   Sidebar/*               app/frontend/components/layouts/sidebar/sidebar.tsx: Provider
--                           (`SidebarProvider`: setOpen, toggleSidebar, handleKeyDown, the cookie, the context),
--                           Parts, View and MenuButton (the components), Session (users' actions
--                           in batches between renders, with the page that they act on).
--   AppShell/*              app/frontend/components/layouts/app-shell/app-shell.tsx.
--   App/Entry               app/frontend/entrypoints/application.tsx, as what it hands to Inertia.
--   App/Mobile              app/frontend/hooks/use-mobile.ts, as a step function on window events.
--   App/Resolve             app/frontend/lib/resolve-page.ts and app/frontend/lib/page-title.ts.
--   Shared/Initials,
--   Shared/Profile          app/frontend/components/shared/profile/profile.tsx.
--   Shared/Notifications    app/frontend/components/shared/notifications/notifications.tsx.
--   Gallery/*               app/frontend/components/features/gallery/registry.tsx (Entry, Entries) and
--                           the page that shows it, app/frontend/pages/Gallery.tsx (Page).
--   Pages/*                 app/frontend/pages/Home.tsx and app/frontend/pages/Error.tsx.
--   E2e/Manifest            e2e/support/masked-capture.ts and e2e/support/global-teardown.ts.
--   E2e/Masking             the script that masked-capture.ts adds to a page, as a function on the
--                           events of a document.
--   Spec/States             spec/frontend/support/universal-states.ts and render-state.tsx.
--   E2e/Reporter            e2e/support/classified-reporter.ts.
--   Tests, Tests/*          the theorems at concrete inputs.
--
-- How the parts interact. The components of Sidebar and Shared are written with those of Ui, and
-- take the same packages (`ClassLibs`). The sidebar's components read the context that the provider
-- builds. The fixture of masked-capture.ts appends claims to a manifest that the teardown reads
-- back, so the two are modelled over one text. The data table is made of the components of Ui, and
-- shows its placeholder while it loads. The gallery shows elements of all components, which stay
-- unexpanded in its entries.
--
-- Parameters. The packages clsx, tailwind-merge and class-variance-authority (`ClassLibs`), the
-- media query of the browser (`MediaQuery`), the file system, sha256 and JSON (`FileSystem`,
-- `ClaimJson`), how code units are written as a text to be shown, `import.meta.glob`
-- of Vite (`Glob`), the hook of TanStack Table (`UseTable`)
-- and the table that it hands to a render (`ReactTable`), with the behaviour of its pagination over time
-- (`TableStore`, `PagingLaws`). Their hypotheses are that a
-- media query compares the width with its limit, that the entries of a directory exist and that
-- directories end, that JSON text is one line that is not blank and reads back, and that a table's
-- commands move to the page that they are named for and a new page size keeps the first row in view.
--
-- Fuel. `files_from` has the depth of the directory, plus one, as its fuel; `decimal` has the number
-- itself, plus one, and a tenth of a positive number is less than it.
--
-- Not modelled. The texts of the animated drawings, which are an argument; writing files,
-- running bin/redact-artifacts and printing; the tests, the type declarations and the configuration of
-- eslint, Vite, vitest and Playwright. The errors of node:fs that end the teardown: `readFileSync` of a
-- claimed path that is a directory, `readdirSync` of a claimed directory that is a file, and `statSync`
-- of a link to nothing; and a line of the manifest that is `null` or another value without members, which
-- no claim writes. The keys that `columnLabels` of the data table inherits from `Object`. Of JavaScript: `toUpperCase` and `toLowerCase` are those of
-- Latin-1 and of ASCII; keys of lists of elements, which React alone reads, are left out; a fraction in an
-- attribute stays as the source writes it. The Rails application and the scripts are in other languages.
pub mod Common
pub mod Dom
pub mod React
pub mod Ui
pub mod Sidebar
pub mod App
pub mod AppShell
pub mod Shared
pub mod E2e
pub mod Gallery
pub mod Pages
pub mod Spec
pub mod Tests
