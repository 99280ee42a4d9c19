-- ===== src/Bridge/Events/Invariant.antt =====
-- The events keep the store well-formed, whichever statements the engine refuses.
use whatsmcp.Base.{
  ℕ, ◌&&◌, Bool, Bool-cases, inl, inr, by_arms, is_empty, Text, List, none, Option, if◌then◌else◌,
}
use whatsmcp.Sql.{Db, query}
use whatsmcp.Bridge.Std.{Std}
use whatsmcp.Bridge.Proto.{inner}
use whatsmcp.Bridge.Content.{extract_text_content, extract_quoted}
use whatsmcp.Bridge.Media.{MediaInfo, extract_media_info, extract_direct_path}
use whatsmcp.Bridge.Menu.{MenuOption, extract_menu_options}
use whatsmcp.Bridge.Store.{Tables, put_chat, store_chat, store_message}
use whatsmcp.Bridge.Store.Menus.{Wire, store_menu_options, store_raw_message}
use whatsmcp.Bridge.Store.Invariant.{WellFormed, exec-WellFormed, put_chat-Keeps}
use whatsmcp.Bridge.Store.Calls.{
  store_message-WellFormed, store_menu_options-WellFormed, store_raw_message-WellFormed,
  store_direct_path-WellFormed,
}
use whatsmcp.Bridge.Events.{
  WaJid, Names, Client, MessageEvent, get_chat_name, store_extras, handle_message,
}

abbrev OfDb : Db Tables → Type 0
OfDb db = WellFormed db.tables

module _ (lib : Std) (wire : Wire) (msg : MessageEvent) (chat_jid : Text) where
  with_menu-WellFormed :
      (db : Db Tables)
      → WellFormed db.tables
      → WellFormed (
          (if is_empty (extract_menu_options lib (inner msg.message))
            then db
            else (store_raw_message wire msg.id chat_jid msg.message (
                (store_menu_options msg.id chat_jid
                  (extract_menu_options lib (inner msg.message))
                  db).0)).0).tables)
  with_menu-WellFormed db h =
      let opts : List MenuOption = extract_menu_options lib (inner msg.message) in
      elim (Bool-cases (is_empty opts)) [
        | inl no_menu ↦ rw no_menu h
        | inr menu ↦ rw menu (
            store_raw_message-WellFormed wire msg.id chat_jid msg.message
              ((store_menu_options msg.id chat_jid opts db).0)
              (store_menu_options-WellFormed msg.id chat_jid opts db h))
      ]

  store_extras-WellFormed :
      (info : MediaInfo) (db : Db Tables)
      → WellFormed db.tables
      → WellFormed ((store_extras lib wire msg chat_jid info db).tables)
  unfolding store_extras
  store_extras-WellFormed info db h = elim (Bool-cases (is_empty info.media_type)) [
    | inl text_only ↦ rw text_only (with_menu-WellFormed db h)
    | inr media ↦ rw media (
        store_direct_path-WellFormed msg.id chat_jid (extract_direct_path (inner msg.message)) _
          (with_menu-WellFormed db h))
  ]

-- The query for the name changes no table.
pub get_chat_name-WellFormed :
    (client : Client) (jid : WaJid) (chat_jid : Text) (conversation : Option Names) (sender : Text)
    (db : Db Tables)
    → WellFormed db.tables
    → WellFormed ((get_chat_name client jid chat_jid conversation sender db).0.tables)
unfolding get_chat_name query
get_chat_name-WellFormed client jid chat_jid conversation sender db h = h

pub charted-WellFormed :
    (jid name : Text) (time : ℕ) (db : Db Tables)
    → WellFormed db.tables
    → WellFormed ((store_chat jid name time db).0.tables)
unfolding store_chat
charted-WellFormed jid name time db h =
    exec-WellFormed (put_chat (record { jid = jid; name = name; last_message_time = time })) db
      (put_chat-Keeps _) h

-- Handling a message that was received keeps the tables well-formed, whichever of its statements the
-- engine refuses.
pub handle_message-WellFormed :
    (lib : Std) (wire : Wire) (client : Client) (msg : MessageEvent) (db : Db Tables)
    → WellFormed db.tables
    → WellFormed ((handle_message lib wire client msg db).tables)
unfolding handle_message
handle_message-WellFormed lib wire client msg db h =
    let chat_jid : Text = client.jid_string msg.chat in
    let named : Db Tables × Text = get_chat_name client msg.chat chat_jid none msg.sender_user db in
    let charted : Db Tables = (store_chat chat_jid (named.1) msg.timestamp (named.0)).0 in
    let content : Text = extract_text_content lib (inner msg.message) in
    let info : MediaInfo = extract_media_info lib (inner msg.message) msg.timestamp msg.id in
    let quoted : Text × Text = extract_quoted lib (inner msg.message) in
    let stored : Db Tables × Bool =
      store_message msg.id chat_jid msg.sender_user content msg.timestamp msg.is_from_me info
        (quoted.0) (quoted.1) charted in
    let first_kept : WellFormed charted.tables =
      charted-WellFormed chat_jid (named.1) msg.timestamp (named.0)
        (get_chat_name-WellFormed client msg.chat chat_jid none msg.sender_user db h) in
    let then_kept : WellFormed (stored.0.tables) =
      store_message-WellFormed msg.id chat_jid msg.sender_user content msg.timestamp msg.is_from_me
        info (quoted.0) (quoted.1) charted first_kept in
    by_arms OfDb (is_empty content && is_empty info.media_type) charted _ (λ _. first_kept)
      (λ _.
        by_arms OfDb (stored.1) (store_extras lib wire msg chat_jid info (stored.0)) (stored.0)
          (λ _. store_extras-WellFormed lib wire msg chat_jid info (stored.0) then_kept)
          (λ _. then_kept))
