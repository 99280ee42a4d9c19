-- ===== src/Bridge/Select.antt =====
-- `selecionaOpcao` of whatsapp-bridge/menu.go: the click on an option of a stored menu.
pub mod Laws
use whatsmcp.Base.{
  ℕ, Bool, true, false, not, ◌&&◌, Option, none, some, List, [], ◌∷◌, ◌++◌, Result, ok, err, Text,
  codes, is_empty, text_eq, contains, pair_key, if◌then◌else◌,
}
use whatsmcp.Sql.{Db, query, first, has_key}
use whatsmcp.Bridge.Std.{Std}
use whatsmcp.Bridge.Proto.{Message, Inner, nil, inner}
use whatsmcp.Bridge.Events.{WaJid}
use whatsmcp.Bridge.Menu.{MenuOption}
use whatsmcp.Bridge.Choice.{ChoiceError, choose_option, Reply, build_reply}
use whatsmcp.Bridge.Store.{Tables, MessageRow, message_key}
use whatsmcp.Bridge.Store.Menus.{Wire, MenuError, get_menu_options, get_raw_message}

-- An index that is negative in the request is a zero here.
pub record SelectOptionRequest : Type 0 where
  pub chat_jid : Text
  pub message_id : Text
  pub option : ℕ
  pub option_id : Text
  pub title : Text

-- The client; `none` is an error. A reply that is sent has its ID.
pub record Replier : Type 0 where
  pub connected : Bool
  pub parse_jid : Text → Option WaJid
  pub jid_string : WaJid → Text
  pub send_reply : WaJid → Reply → Option Text

pub data SelectError : Type 0 where
  offline : SelectError
  no_chat : SelectError
  bad_chat : SelectError
  bad_menu : MenuError → SelectError
  bad_choice : ChoiceError → SelectError
  unknown_kind : Text → SelectError
  failed_reply : SelectError

-- What is sent, and the ID of the reply with the title of the option, or the error.
pub record Selection : Type 0 where
  pub sends : List (WaJid × Reply)
  pub outcome : Result SelectError (Text × Text)

abbrev pub refused : SelectError → Selection
refused e = record { sends = []; outcome = err e }

-- The sender of the menu; an error and an absent row read as empty.
abbrev sender_in : Option (Option MessageRow) → Text
sender_in (some (some r)) = r.sender
sender_in _ = []

abbrev with_server : Text → Text
with_server p =
    if not (is_empty p) && not (contains p (codes "@")) then p ++ codes "@s.whatsapp.net" else p

-- Only in a group does the menu have a participant.
unfoldable pub participant_of : WaJid → Text → Text → Db Tables → Db Tables × Text
unfolding query first contains text_eq
participant_of chat id chat_jid db =
    let (asked, row) = query (λ t. first (has_key message_key (id, chat_jid)) t.messages) db in
    if text_eq chat.server (codes "g.us") then (asked, with_server (sender_in row)) else (db, [])

abbrev quoted_of : Option Message → Inner
quoted_of none = nil
quoted_of (some m) = inner m

module _ (client : Replier) (lib : Std) (wire : Wire) where
  abbrev pub replied : MenuOption → Option Text → Result SelectError (Text × Text)
  replied o none = err failed_reply
  replied o (some id) = ok (id, o.title)

  abbrev pub click : WaJid → MenuOption → Option Reply → Selection
  click chat o none = refused (unknown_kind o.kind)
  click chat o (some r) = record {
    sends = (chat, r) ∷ [];
    outcome = replied o (client.send_reply chat r);
  }

  -- In a chat of two, the participant is the chat.
  abbrev pub or_chat : WaJid → Text → Text
  or_chat chat p = if is_empty p then client.jid_string chat else p

  unfoldable pub click_on : WaJid → Text → Text → MenuOption → Db Tables → Db Tables × Selection
  unfolding participant_of get_raw_message build_reply
  click_on chat id chat_jid o db =
      let (asked, p) = participant_of chat id chat_jid db in
      let (again, raw) = get_raw_message wire id chat_jid asked in
      (
        again,
        click chat o (build_reply o id (or_chat chat p) (client.jid_string chat) (quoted_of raw)),
      )

  abbrev pub with_choice :
      WaJid → Text → Text → Result ChoiceError MenuOption → Db Tables → Db Tables × Selection
  with_choice chat id chat_jid (err e) db = (db, refused (bad_choice e))
  with_choice chat id chat_jid (ok o) db = click_on chat id chat_jid o db

  abbrev pub with_menu :
      WaJid
      → SelectOptionRequest
      → Result MenuError (Text × List MenuOption)
      → Db Tables
      → Db Tables × Selection
  with_menu chat req (err e) db = (db, refused (bad_menu e))
  with_menu chat req (ok (id, opts)) db =
      with_choice chat id req.chat_jid (choose_option lib opts req.option req.option_id req.title)
        db

  abbrev pub in_chat : Option WaJid → SelectOptionRequest → Db Tables → Db Tables × Selection
  in_chat none req db = (db, refused bad_chat)
  in_chat (some chat) req db =
      let (asked, menu) = get_menu_options req.message_id req.chat_jid db in
      with_menu chat req menu asked

  unfoldable pub select_option : SelectOptionRequest → Db Tables → Db Tables × Selection
  unfolding get_menu_options choose_option click_on
  select_option req db =
      if not client.connected
      then (db, refused offline)
      else if is_empty req.chat_jid
      then (db, refused no_chat)
      else in_chat (client.parse_jid req.chat_jid) req db
