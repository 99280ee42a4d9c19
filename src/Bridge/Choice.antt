-- ===== src/Bridge/Choice.antt =====
-- Choosing an option of a menu and building the reply that clicks on it (`escolheOpcao` and
-- `montaResposta` of whatsapp-bridge/menu.go).
pub mod Laws
use whatsmcp.Base.{
  ℕ, ◌+◌, ◌-◌, ◌%◌, ◌^◌, Bool, not, Option, none, some, List, [], ◌∷◌, map, Result, ok, err, Text,
  text_eq, is_empty, trim_space, contains, length, ltb, ◌==◌, if◌then◌else◌,
}
use whatsmcp.Bridge.Std.{Std}
use whatsmcp.Bridge.Proto.{Inner}
use whatsmcp.Bridge.Menu.{MenuOption, kind_list, kind_button, kind_template, kind_nativeflow}

pub data ChoiceError : Type 0 where
  no_index : ℕ → ℕ → ChoiceError
  no_id no_title : Text → ChoiceError
  no_criterion : ChoiceError

-- `for i := range opts { if … { return &opts[i], nil } }`.
unfoldable pub find_option : (MenuOption → Bool) → List MenuOption → Option MenuOption
find_option p [] = none
find_option p (o ∷ opts) = if p o then some o else find_option p opts

abbrev pub or_error : Option MenuOption → ChoiceError → Result ChoiceError MenuOption
or_error none e = err e
or_error (some o) e = ok o

module _ (lib : Std) where
  abbrev pub lower : Text → Text
  lower = map lib.to_lower

  -- The two passes over the titles.
  unfoldable pub find_title : Text → List MenuOption → Option MenuOption
  unfolding find_option
  find_title target opts = elim (find_option (λ o. text_eq (lower o.title) target) opts) [
    | some o ↦ some o
    | none ↦ find_option (λ o. contains (lower o.title) target) opts
  ]

  -- An index that is negative in the request is a zero here: neither is positive.
  unfoldable pub choose_option : List MenuOption → ℕ → Text → Text → Result ChoiceError MenuOption
  unfolding find_option find_title
  choose_option opts index id title =
      if ltb 0 index
      then or_error (find_option (λ o. o.index == index) opts) (no_index index (length opts))
      else if not (is_empty id)
      then or_error (find_option (λ o. text_eq o.option_id id) opts) (no_id id)
      else if not (is_empty title)
      then or_error (find_title (lower (trim_space title)) opts) (no_title title)
      else err no_criterion

-- The `ContextInfo` of a reply.
pub record ReplyContext : Type 0 where
  pub stanza_id : Text
  pub quoted : Inner
  pub remote_jid : Option Text
  pub participant : Option Text

pub data Reply : Type 0 where
  list_reply : (title row_id : Text) → ReplyContext → Reply
  buttons_reply : (button_id text : Text) → ReplyContext → Reply
  template_reply : (id text : Text) → (index : ℕ) → ReplyContext → Reply
  native_reply : (text name params_json : Text) → ReplyContext → Reply

abbrev pub set_string : Text → Option Text
set_string s = if is_empty s then none else some s

abbrev pub reply_context : Text → Text → Text → Inner → ReplyContext
reply_context stanza_id participant chat_jid quoted = record {
  stanza_id = stanza_id;
  quoted = quoted;
  remote_jid = set_string chat_jid;
  participant = set_string participant;
}

unfoldable pub build_reply : MenuOption → Text → Text → Text → Inner → Option Reply
build_reply o stanza_id participant chat_jid quoted =
    let ctx = reply_context stanza_id participant chat_jid quoted in
    if text_eq o.kind kind_list
    then some (list_reply o.title o.option_id ctx)
    else if text_eq o.kind kind_button
    then some (buttons_reply o.option_id o.title ctx)
    else if text_eq o.kind kind_template
    then some (template_reply o.option_id o.title ((o.index + 2 ^ 32 - 1) % 2 ^ 32) ctx)
    else if text_eq o.kind kind_nativeflow
    then some (native_reply o.title o.option_id o.params_json ctx)
    else none
