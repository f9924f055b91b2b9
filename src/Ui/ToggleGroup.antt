-- ===== src/Ui/ToggleGroup.antt =====
-- app/frontend/components/ui/toggle-group/toggle-group.tsx. The children of a group are given the context
-- that the group provides; an item outside a group has the default one.
use opanel.Common.{ℕ, String, Option, none, some, [], ◌∷◌, ◌===◌, if◌then◌else◌, or_else}
use opanel.Common.Decimal.{decimal}
use opanel.Dom.{Props, Node, element, foreign, str, num, style, opt_str, opt_num, spread, jsx}
use opanel.Ui.Cn.{ClassLibs, cn, lit, given}
use opanel.Ui.Toggle.{toggle_variants}

pub record ToggleGroupContext : Type 0 where
  pub variant : Option String
  pub size : Option String
  pub spacing : Option ℕ
  pub orientation : Option String

abbrev pub default_context : ToggleGroupContext
default_context = record {
  variant = some "default";
  size = some "default";
  spacing = some 2;
  orientation = some "horizontal";
}

-- `a || b` on a text that may be absent.
abbrev pub or_text : Option String → String → String
or_text none b = b
or_text (some a) b = if a === "" then b else a

module _ {M : Type 0} (L : ClassLibs) where
  unfoldable pub toggle_group :
      Option String
      → Option String
      → Option ℕ
      → Option String
      → (ToggleGroupContext → Node M)
      → Props M
      → Node M
  toggle_group variant size spacing orientation children p =
      element (foreign "ToggleGroup.Root")
        (spread
          (("data-slot", str "toggle-group")
            ∷ ("data-variant", opt_str variant)
            ∷ ("data-size", opt_str size)
            ∷ ("data-spacing", num (or_else spacing 2))
            ∷ ("data-orientation", str (or_else orientation "horizontal"))
            ∷ ("style", style (("--gap", decimal (or_else spacing 2)) ∷ []))
            ∷ (
              "className",
              str (
                  cn L (
                    lit
                      "group/toggle-group flex w-fit flex-row items-center gap-[--spacing(var(--gap))] rounded-xs data-[size=sm]:rounded-xs data-vertical:flex-col data-vertical:items-stretch"
                    ∷ given p.class_name
                    ∷ [])),
            )
            ∷ [])
          p.attrs)
        (element (foreign "ToggleGroupContext.Provider") [] (
          children (record {
            variant = variant;
            size = size;
            spacing = some (or_else spacing 2);
            orientation = some (or_else orientation "horizontal");
          })))

  unfoldable pub toggle_group_item :
      ToggleGroupContext → Option String → Option String → Props M → Node M
  toggle_group_item context variant size p =
      let shown_variant = or_text context.variant (or_else variant "default") in
      let shown_size = or_text context.size (or_else size "default") in
      jsx (foreign "ToggleGroup.Item")
        (("data-slot", str "toggle-group-item")
          ∷ ("data-variant", str shown_variant)
          ∷ ("data-size", str shown_size)
          ∷ ("data-spacing", opt_num context.spacing)
          ∷ (
            "className",
            str (
                cn L (
                  lit
                    "shrink-0 group-data-[spacing=0]/toggle-group:rounded-none group-data-[spacing=0]/toggle-group:px-2 focus:z-10 focus-visible:z-10 group-data-[spacing=0]/toggle-group:has-data-[icon=inline-end]:pr-1.5 group-data-[spacing=0]/toggle-group:has-data-[icon=inline-start]:pl-1.5 group-data-horizontal/toggle-group:data-[spacing=0]:first:rounded-l-xs group-data-vertical/toggle-group:data-[spacing=0]:first:rounded-t-xs group-data-horizontal/toggle-group:data-[spacing=0]:last:rounded-r-xs group-data-vertical/toggle-group:data-[spacing=0]:last:rounded-b-xs group-data-horizontal/toggle-group:data-[spacing=0]:data-[variant=outline]:border-l-0 group-data-vertical/toggle-group:data-[spacing=0]:data-[variant=outline]:border-t-0 group-data-horizontal/toggle-group:data-[spacing=0]:data-[variant=outline]:first:border-l group-data-vertical/toggle-group:data-[spacing=0]:data-[variant=outline]:first:border-t"
                  ∷ lit (
                      L.cva toggle_variants
                        (("variant", some shown_variant) ∷ ("size", some shown_size) ∷ []) none)
                  ∷ given p.class_name
                  ∷ [])),
          )
          ∷ [])
        p
