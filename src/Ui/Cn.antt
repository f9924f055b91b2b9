-- ===== src/Ui/Cn.antt =====
-- `cn` of app/frontend/lib/utils.ts, over the packages that it calls: clsx, tailwind-merge and
-- class-variance-authority are parameters.
use opanel.Common.{String, Option, none, some, List}

-- A class argument: a text, or a value that clsx leaves out (`undefined`, `false`).
pub data ClassValue : Type 0 where
  lit : String → ClassValue
  falsy : ClassValue

abbrev pub given : Option String → ClassValue
given none = falsy
given (some s) = lit s

-- The arguments of `cva`: the base classes, the classes of each variant, and the defaults.
pub record Cva : Type 0 where
  pub base : String
  pub variants : List (String × List (String × String))
  pub default_variants : List (String × String)

pub record ClassLibs : Type 0 where
  pub clsx : List ClassValue → String
  pub tw_merge : String → String
  -- `cva(base, config)({ ...selection, className })`
  pub cva : Cva → List (String × Option String) → Option String → String

unfoldable pub cn : ClassLibs → List ClassValue → String
cn L inputs = L.tw_merge (L.clsx inputs)
