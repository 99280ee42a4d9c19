-- ===== src/Bridge/Events.antt =====
-- The events that whatsapp-bridge/main.go stores: the name of a chat, a message received, and a
-- history sync.
pub mod Keep
pub mod History
pub mod Invariant
pub mod Synced
pub mod Arrived
use whatsmcp.Base.{
  ℕ, Bool, true, false, not, ◌&&◌, ◌==◌, Option, none, some, List, [], ◌∷◌, ◌++◌, Text, codes,
  is_empty, text_eq, if◌then◌else◌, is_some, text_key,
}
use whatsmcp.Sql.{Db, query, first, has_key}
use whatsmcp.Bridge.Std.{Std}
use whatsmcp.Bridge.Proto.{Message, Inner, nil, inner}
use whatsmcp.Bridge.Content.{extract_text_content, extract_quoted}
use whatsmcp.Bridge.Media.{MediaInfo, no_media, extract_media_info, extract_direct_path}
use whatsmcp.Bridge.Menu.{MenuOption, extract_menu_options}
use whatsmcp.Bridge.Store.{
  Tables, ChatRow, chat_key, found, store_chat, store_message, fill_history_message,
  store_direct_path,
}
use whatsmcp.Bridge.Store.Menus.{Wire, store_menu_options, store_raw_message}

-- The part of `types.JID` that is read here.
pub record WaJid : Type 0 where
  pub user : Text
  pub server : Text

-- The whatsmeow client: the account's own user, what it knows of a group and of a contact (`none` is
-- an error), and the text form of a JID. The session is there: a history sync after a logout, where
-- `Store.ID` is nil and its use panics, is not modelled.
pub record Client : Type 0 where
  pub own_user : Text
  pub group_name : WaJid → Option Text
  pub full_name : WaJid → Option Text
  pub parse_jid : Text → Option WaJid
  pub jid_string : WaJid → Text

-- `DisplayName` and `Name` of a conversation; `none` for the conversation is nil.
abbrev pub Names : Type 0
Names = Option Text × Option Text

-- A pointer's text; empty where it is nil, as `x != nil && *x != ""` treats both alike.
abbrev pub deref : Option Text → Text
deref none = []
deref (some s) = s

abbrev pub conversation_name : Option Names → Text
conversation_name none = []
conversation_name (some (display, name)) =
    if not (is_empty (deref display)) then deref display else deref name

abbrev pub existing_name : Option ChatRow → Text
existing_name none = []
existing_name (some r) = r.name

module _ (client : Client) where
  unfoldable pub new_chat_name : WaJid → Option Names → Text → Text
  unfolding text_eq
  new_chat_name jid conversation sender =
      if text_eq jid.server (codes "g.us")
      then (let name = conversation_name conversation in
          if not (is_empty name)
          then name
          else let group = deref (client.group_name jid) in
            if not (is_empty group) then group else codes "Group " ++ jid.user)
      else (let contact = deref (client.full_name jid) in
          if not (is_empty contact)
          then contact
          else if not (is_empty sender)
          then sender
          else jid.user)

  -- `GetChatName`: the stored name first.
  unfoldable pub get_chat_name : WaJid → Text → Option Names → Text → Db Tables → Db Tables × Text
  unfolding query first new_chat_name
  get_chat_name jid chat_jid conversation sender db =
      let (asked, row) = query (λ t. first (has_key chat_key chat_jid) t.chats) db in
      let existing = existing_name (found row) in
      (asked, if not (is_empty existing) then existing else new_chat_name jid conversation sender)

-- `events.Message`: its `Info` and the message.
pub record MessageEvent : Type 0 where
  pub id : Text
  pub chat : WaJid
  pub sender_user : Text
  pub timestamp : ℕ
  pub is_from_me : Bool
  pub message : Message

-- `waProto.WebMessageInfo` and its key.
pub record MessageKey : Type 0 where
  pub from_me : Option Bool
  pub participant : Option Text
  pub id : Option Text

pub record WebMessage : Type 0 where
  pub key : Option MessageKey
  pub message : Inner
  pub timestamp : ℕ

-- A message of the list is `none` where it or its `Message` is nil.
pub record Conversation : Type 0 where
  pub id : Option Text
  pub display_name : Option Text
  pub name : Option Text
  pub messages : List (Option WebMessage)

module _ (lib : Std) (wire : Wire) where
  -- What follows a stored message: its menu, its raw form, and its direct path.
  unfoldable pub store_extras : MessageEvent → Text → MediaInfo → Db Tables → Db Tables
  unfolding store_menu_options store_raw_message store_direct_path
  store_extras msg chat_jid info db =
      let opts = extract_menu_options lib (inner msg.message) in
      let with_menu =
        if is_empty opts
        then db
        else (store_raw_message wire msg.id chat_jid msg.message
            ((store_menu_options msg.id chat_jid opts db).0)).0 in
      if is_empty info.media_type
      then with_menu
      else (store_direct_path msg.id chat_jid (extract_direct_path (inner msg.message)) with_menu).0

module _ (lib : Std) (wire : Wire) (client : Client) where
  unfoldable pub handle_message : MessageEvent → Db Tables → Db Tables
  unfolding get_chat_name store_chat store_message store_extras
  handle_message msg db =
      let chat_jid = client.jid_string msg.chat in
      let (named, name) = get_chat_name client msg.chat chat_jid none msg.sender_user db in
      let charted = (store_chat chat_jid name msg.timestamp named).0 in
      let content = extract_text_content lib (inner msg.message) in
      let info = extract_media_info lib (inner msg.message) msg.timestamp msg.id in
      let (quoted_id, quoted_text) = extract_quoted lib (inner msg.message) in
      if is_empty content && is_empty info.media_type
      then charted
      else let (stored, done) =
          store_message msg.id chat_jid msg.sender_user content msg.timestamp msg.is_from_me info
            quoted_id quoted_text charted in
        if done then store_extras lib wire msg chat_jid info stored else stored

abbrev pub message_id : Option MessageKey → Text
message_id none = []
message_id (some k) = deref k.id

abbrev pub key_from_me : Option MessageKey → Bool
key_from_me none = false
key_from_me (some k) = elim k.from_me [ some b ↦ b | none ↦ false ]

module _ (client : Client) where
  abbrev pub key_sender : WaJid → Option MessageKey → Text
  key_sender jid none = jid.user
  key_sender jid (some k) =
      let mine = key_from_me (some k) in
      if not mine && not (is_empty (deref k.participant))
      then deref k.participant
      else if mine
      then client.own_user
      else jid.user

module _ (lib : Std) where
  abbrev pub history_info : WebMessage → MediaInfo
  history_info msg = elim msg.message [
    | nil ↦ no_media
    | inner m ↦ extract_media_info lib (inner m) msg.timestamp (message_id msg.key)
  ]

module _ (lib : Std) (client : Client) where
  -- One round of the loop over a conversation's messages.
  unfoldable pub history_message : Text → WaJid → WebMessage → Db Tables → Db Tables
  unfolding fill_history_message store_message
  history_message chat_jid jid msg db =
      let content = extract_text_content lib msg.message in
      let info = history_info lib msg in
      let (quoted_id, quoted_text) = extract_quoted lib msg.message in
      let id = message_id msg.key in
      if is_empty content && is_empty info.media_type
      then db
      else let (filled, was_stored) = fill_history_message id chat_jid content db in
        if was_stored
        then filled
        else if msg.timestamp == 0
        then filled
        else (store_message id chat_jid (key_sender client jid msg.key) content msg.timestamp
            (key_from_me msg.key) info quoted_id quoted_text filled).0

  unfoldable pub history_messages : Text → WaJid → List (Option WebMessage) → Db Tables → Db Tables
  unfolding history_message
  history_messages chat_jid jid [] db = db
  history_messages chat_jid jid (none ∷ msgs) db = history_messages chat_jid jid msgs db
  history_messages chat_jid jid (some msg ∷ msgs) db =
      history_messages chat_jid jid msgs (history_message chat_jid jid msg db)

  -- The chat's time is that of the first message; a conversation without one is skipped.
  unfoldable pub sync_messages :
      Text → WaJid → Text → List (Option WebMessage) → Db Tables → Db Tables
  unfolding history_messages store_chat
  sync_messages chat_jid jid name [] db = db
  sync_messages chat_jid jid name (none ∷ msgs) db = db
  sync_messages chat_jid jid name (some msg ∷ msgs) db =
      if msg.timestamp == 0
      then db
      else history_messages chat_jid jid (some msg ∷ msgs)
          ((store_chat chat_jid name msg.timestamp db).0)

  abbrev pub sync_known : Conversation → Text → Option WaJid → Db Tables → Db Tables
  sync_known c chat_jid none db = db
  sync_known c chat_jid (some jid) db =
      let (named, name) = get_chat_name client jid chat_jid (some (c.display_name, c.name)) [] db in
      sync_messages chat_jid jid name c.messages named

  unfoldable pub sync_conversation : Conversation → Db Tables → Db Tables
  unfolding sync_messages get_chat_name
  sync_conversation c db = elim c.id [
    | none ↦ db
    | some chat_jid ↦ sync_known c chat_jid (client.parse_jid chat_jid) db
  ]

  unfoldable pub handle_history_sync : List Conversation → Db Tables → Db Tables
  unfolding sync_conversation
  handle_history_sync [] db = db
  handle_history_sync (c ∷ cs) db = handle_history_sync cs (sync_conversation c db)
