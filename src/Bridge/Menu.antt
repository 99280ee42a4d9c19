-- ===== src/Bridge/Menu.antt =====
-- The interactive menus of whatsapp-bridge/menu.go: reading the options of a message, printing them,
-- and printing them; choosing one is in Choice.antt.
pub mod Options
use whatsmcp.Base.{
  ℕ, zero, suc, ◌+◌, ◌-◌, ◌%◌, ◌^◌, Bool, true, false, not, ◌&&◌, Option, none, some, List, [], ◌∷◌,
  ◌++◌, map, Result, ok, err, Text, codes, text_eq, is_empty, trim_space, contains, length, ltb,
  leb, ◌==◌, if◌then◌else◌,
}
use whatsmcp.Bridge.Std.{Std}
use whatsmcp.Bridge.Decimal.{decimal}
use whatsmcp.Bridge.Proto.{
  Row, Section, ListMessage, Button, ButtonsMessage, HydratedButton, quick_reply, url_button,
  call_button, unset_button, HydratedTemplate, NativeButton, InteractiveMessage, Body, Message,
  body, Inner, nil, inner,
}
use whatsmcp.Bridge.Unwrap.{unwrap_message}

pub record MenuOption : Type 0 where
  pub index : ℕ
  pub kind : Text
  pub option_id : Text
  pub title : Text
  pub description : Text
  pub section : Text
  pub params_json : Text

abbrev pub kind_list : Text
kind_list = codes "list"

abbrev pub kind_button : Text
kind_button = codes "button"

abbrev pub kind_template : Text
kind_template = codes "template"

abbrev pub kind_nativeflow : Text
kind_nativeflow = codes "nativeflow"

-- The closure `add`: the option is appended under the next index.
unfoldable pub add : List MenuOption → Text → Text → Text → Text → Text → Text → List MenuOption
add out kind id title desc section params =
    out
    ++ record {
      index = length out + 1;
      kind = kind;
      option_id = id;
      title = title;
      description = desc;
      section = section;
      params_json = params;
    }
      ∷ []

unfoldable pub add_rows : Text → List Row → List MenuOption → List MenuOption
add_rows section [] out = out
add_rows section (r ∷ rows) out =
    add_rows section rows (add out kind_list r.row_id r.title r.description section (codes ""))

unfoldable pub add_sections : List Section → List MenuOption → List MenuOption
unfolding add_rows
add_sections [] out = out
add_sections (s ∷ sections) out = add_sections sections (add_rows s.title s.rows out)

unfoldable pub add_buttons : List Button → List MenuOption → List MenuOption
add_buttons [] out = out
add_buttons (b ∷ buttons) out =
    add_buttons buttons
      (add out kind_button b.button_id b.display_text (codes "") (codes "") (codes ""))

unfoldable pub add_hydrated : List HydratedButton → List MenuOption → List MenuOption
add_hydrated [] out = out
add_hydrated (quick_reply id text ∷ buttons) out =
    add_hydrated buttons (add out kind_template id text (codes "") (codes "") (codes ""))
add_hydrated (url_button url text ∷ buttons) out =
    add_hydrated buttons (add out kind_template url text (codes "url") (codes "") (codes ""))
add_hydrated (call_button phone text ∷ buttons) out =
    add_hydrated buttons (add out kind_template phone text (codes "telefone") (codes "") (codes ""))
add_hydrated (unset_button ∷ buttons) out = add_hydrated buttons out

-- The value of the first key that holds a non-empty string.
unfoldable pub first_label : (Text → Option Text) → List Text → Text → Text
first_label fields [] name = name
first_label fields (k ∷ keys) name = elim (fields k) [
  | none ↦ first_label fields keys name
  | some v ↦ if is_empty v then first_label fields keys name else v
]

-- The four blocks of `extractMenuOptions`, each behind its test for nil.
unfoldable pub list_block : Option ListMessage → List MenuOption → List MenuOption
unfolding add_sections
list_block none out = out
list_block (some l) out = add_sections l.sections out

unfoldable pub buttons_block : Option ButtonsMessage → List MenuOption → List MenuOption
unfolding add_buttons
buttons_block none out = out
buttons_block (some b) out = add_buttons b.buttons out

unfoldable pub template_block : Option (Option HydratedTemplate) → List MenuOption → List MenuOption
unfolding add_hydrated
template_block none out = out
template_block (some none) out = out
template_block (some (some t)) out = add_hydrated t.buttons out

module _ (lib : Std) where
  unfoldable pub native_label : Text → Text → Text
  unfolding first_label
  native_label name params = elim (lib.json_strings params) [
    | none ↦ name
    | some fields ↦
        first_label fields
          (codes "display_text" ∷ codes "title" ∷ codes "text" ∷ codes "label" ∷ []) name
  ]

  unfoldable pub add_native : List NativeButton → List MenuOption → List MenuOption
  unfolding native_label
  add_native [] out = out
  add_native (b ∷ buttons) out = add_native buttons (
      add out kind_nativeflow b.name (native_label b.name b.params_json) (codes "") (codes "")
        b.params_json)

  unfoldable pub interactive_block : Option InteractiveMessage → List MenuOption → List MenuOption
  unfolding add_native
  interactive_block none out = out
  interactive_block (some i) out = add_native i.buttons out

  abbrev pub body_options : Body → List MenuOption
  body_options b =
      interactive_block b.interactive
        (template_block b.template (buttons_block b.buttons (list_block b.list [])))

  unfoldable pub options_of : Inner → List MenuOption
  options_of nil = []
  options_of (inner m) = body_options (body m)

  unfoldable pub extract_menu_options : Inner → List MenuOption
  unfolding options_of
  extract_menu_options msg = options_of (unwrap_message msg)

-- The lines above the options.
abbrev list_head : Option ListMessage → List Text
list_head none = []
list_head (some l) = l.title ∷ l.description ∷ []

abbrev buttons_head : Option ButtonsMessage → List Text
buttons_head none = []
buttons_head (some b) = b.content_text ∷ []

abbrev template_head : Option (Option HydratedTemplate) → List Text
template_head (some (some t)) = t.content_text ∷ []
template_head _ = []

abbrev interactive_head : Option InteractiveMessage → List Text
interactive_head none = []
interactive_head (some i) = i.header_title ∷ i.body_text ∷ []

unfoldable pub heading : Inner → List Text
heading nil = []
heading (inner m) =
    list_head (body m).list
    ++ (buttons_head (body m).buttons
        ++ (template_head (body m).template ++ interactive_head (body m).interactive))

unfoldable pub render_heading : List Text → Text
render_heading [] = []
render_heading (c ∷ cs) =
    let line = trim_space c in (if is_empty line then [] else b' ' ∷ line) ++ render_heading cs

-- The loop over the options; the first argument is the section being printed.
unfoldable pub render_options : Text → List MenuOption → Text
render_options current [] = []
render_options current (o ∷ opts) =
    let new = not (is_empty o.section) && not (text_eq o.section current) in
    (if new then codes "\n-- " ++ o.section else [])
    ++ (codes "\n"
        ++ (decimal o.index
            ++ (codes ". "
                ++ (o.title
                    ++ ((if is_empty o.description
                          then []
                          else codes " (" ++ (o.description ++ codes ")"))
                        ++ render_options (if new then o.section else current) opts)))))

unfoldable pub render_menu : Inner → List MenuOption → Text
unfolding heading render_heading render_options
render_menu msg opts =
    codes "[menu]" ++ (render_heading (heading (unwrap_message msg)) ++ render_options [] opts)
