-- ===== src/Tests/Controls.antt =====
-- The theorems of fields and sliders at concrete inputs.
use opanel.Common.{ℕ, false, Option, none, some, List, [], ◌∷◌, ◌≡◌, refl, map}
use opanel.Dom.{Props, nothing}
use opanel.Ui.Cn.{ClassLibs}
use opanel.Dom.{Event, Arg, str, get, fire, root_attrs}
use opanel.Sidebar.Provider.{SidebarContext, collapsed}
use opanel.AppShell.{app_shell_trigger}
use opanel.AppShell.Inherited.{app_shell_trigger-click}
use opanel.Ui.Progress.{progress}
use opanel.Ui.Progress.Silent.{progress-silent}
use opanel.Ui.Field.Errors.{FieldMessage, message_of, field_error}
use opanel.Ui.Field.Errors.Messages.{once}
use opanel.Ui.Field.Errors.Shown.{shown, filled_messages, field_error-shown}
use opanel.Ui.Slider.{
  SliderProps, SliderEvent, render, change, mounted, step, steps, current_values,
}
use opanel.Ui.Slider.Values.{starting_at, current_values-kept}

abbrev no_classes : ClassLibs
no_classes = record {
  clsx = λ inputs. "";
  tw_merge = λ s. s;
  cva = λ config selection extra. config.base;
}

abbrev no_children : Props ℕ
no_children = record { class_name = none; attrs = []; children = nothing }

abbrev two_errors : List (Option FieldMessage)
two_errors =
    some (record { message = some "short" }) ∷ none ∷ some (record { message = some "short" }) ∷ []

field_error-shown_example :
    shown (field_error no_classes (some two_errors) no_children)
    ≡ filled_messages (once (map message_of two_errors))
field_error-shown_example = field_error-shown no_classes two_errors no_children refl

abbrev free_slider : SliderProps ℕ
free_slider = record {
  class_name = none;
  default_value = some (record { identity = 0; items = 20 ∷ [] });
  initial_value = none;
  on_value_change = none;
  orientation = none;
  show_value = none;
  value = none;
  min = none;
  max = none;
  format_value = none;
}

abbrev relabelled : SliderProps ℕ
relabelled = record free_slider { orientation = some "vertical" }

abbrev moved : List (SliderEvent ℕ)
moved = change (30 ∷ []) ∷ change (40 ∷ []) ∷ render relabelled ∷ []

current_values-kept_example :
    (current_values (steps (mounted free_slider) moved) ≡ 40 ∷ [])
    × (current_values
          (step (steps (mounted free_slider) moved) (render (starting_at 7 free_slider)))
        ≡ 7 ∷ [])
unfolding mounted steps step
current_values-kept_example =
    current_values-kept (mounted free_slider) (change (30 ∷ []) ∷ []) (40 ∷ []) (relabelled ∷ []) 7
      refl ((refl, refl), tt)

progress-silent_example :
    (root_attrs (progress no_classes (some 10) no_children)
      ≡ root_attrs (progress no_classes none no_children))
    × (get "value" (root_attrs (progress no_classes (some 10) no_children)) ≡ none)
unfolding get
progress-silent_example = progress-silent no_classes (some 10) none no_children refl

abbrev shell_context : SidebarContext ℕ
shell_context = record {
  state = collapsed;
  is_open = false;
  set_open = λ v. [];
  open_mobile = false;
  set_open_mobile = λ v. [];
  is_mobile = false;
  toggle_sidebar = 7 ∷ [];
}

abbrev shell_event : Event ℕ
shell_event = record { prevent_default = []; value = Arg.click }

app_shell_trigger-click_example :
    (fire "onClick"
        (app_shell_trigger no_classes shell_context none none none (some (λ e. 4 ∷ [])) no_children)
        shell_event
      ≡ 4 ∷ 7 ∷ [])
    × (get "data-slot" (
          root_attrs (
            app_shell_trigger no_classes shell_context none none none
              (some (λ e. 4 ∷ []))
              no_children))
        ≡ some (str "app-shell-trigger"))
unfolding get
app_shell_trigger-click_example =
    app_shell_trigger-click no_classes shell_context none none none (some (λ e. 4 ∷ [])) no_children
      shell_event refl refl
