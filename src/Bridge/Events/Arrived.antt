-- ===== src/Bridge/Events/Arrived.antt =====
-- What a received message leaves in the store of an engine that refuses nothing.
use whatsmcp.Base.{
  ◌≡◌, refl, Bool, true, false, none, some, List, Text, is_empty, Bool-cases, Option-cases, inl,
  inr, text_key, pair_key, same_refl, by_arms, if◌then◌else◌,
}
use whatsmcp.Sql.{Db, exec, query, has_key, insert_or_replace}
use whatsmcp.Sql.Laws.{first-update_self, first-insert_or_replace_self}
use whatsmcp.Bridge.Std.{Std}
use whatsmcp.Bridge.Proto.{Message, inner}
use whatsmcp.Bridge.Content.{extract_text_content, extract_quoted}
use whatsmcp.Bridge.Media.{MediaInfo, extract_media_info, extract_direct_path}
use whatsmcp.Bridge.Menu.{MenuOption, extract_menu_options}
use whatsmcp.Bridge.Menu.Options.{extract_menu_options-IsMenu}
use whatsmcp.Bridge.Store.{
  Tables, ChatRow, MessageRow, message_row, message_key, chat_key, set_direct_path, store_chat,
  store_message, store_direct_path,
}
use whatsmcp.Bridge.Store.Rows.{find_message, put_message_lem}
use whatsmcp.Bridge.Store.Menus.{Wire, store_menu_options, store_raw_message}
use whatsmcp.Bridge.Store.Menus.Stored.{sound, stored, store_menu_options-stored}
use whatsmcp.Bridge.Events.{Client, MessageEvent, get_chat_name, store_extras, handle_message}

-- The engine goes on to refuse nothing, and the message has a row with this text.
pub record Holding (k : Text × Text) (content : Text) (db : Db Tables) : Type 0 where
  pub tables : Tables
  pub row : MessageRow
  pub at : db ≡ sound tables
  pub found : find_message k tables ≡ some row
  pub text : row.content ≡ content

module _ (k : Text × Text) (content : Text) where
  abbrev Holds : Db Tables → Type 0
  Holds = Holding k content

  abbrev Whole : Tables → Type 0
  Whole t = (r : MessageRow) × (find_message k t ≡ some r) × (r.content ≡ content)

  Whole-Holds : (t : Tables) → Whole t → Holds (sound t)
  Whole-Holds t (r, found, text) = record {
    tables = t;
    row = r;
    at = refl;
    found = found;
    text = text;
  }

  done-Holds : (r : Db Tables × Bool) (t : Tables) → r ≡ (sound t, true) → Whole t → Holds (r.0)
  done-Holds r t e h = rw e (Whole-Holds t h)

  store_raw_message-Holds :
      (wire : Wire) (id chat_jid : Text) (msg : Message) (t : Tables)
      → Whole t
      → Holds ((store_raw_message wire id chat_jid msg (sound t)).0)
  unfolding store_raw_message exec
  store_raw_message-Holds wire id chat_jid msg t h = elim (Option-cases (wire.marshal msg)) [
    | inl e ↦ rw (e, store_raw_message) (Whole-Holds t h)
    | inr (b, e) ↦ rw (e, store_raw_message) (Whole-Holds _ h)
  ]

  store_direct_path-Holds :
      (path : Text) (t : Tables)
      → Whole t
      → Holds ((store_direct_path (k.0) (k.1) path (sound t)).0)
  unfolding store_direct_path exec
  store_direct_path-Holds path t (r, found, text) = elim (Bool-cases (is_empty path)) [
    | inl e ↦ rw e (Whole-Holds t (r, found, text))
    | inr e ↦ rw e (
        Whole-Holds _ (
          set_direct_path path r,
          first-update_self (has_key message_key k) (set_direct_path path) t.messages r (λ _. refl)
              found,
          text,
        ))
  ]

module _ (lib : Std) (wire : Wire) (msg : MessageEvent) (chat_jid content : Text) where
  abbrev HoldsIt : Db Tables → Type 0
  HoldsIt = Holding (msg.id, chat_jid) content

  abbrev with_menu : Db Tables → Db Tables
  with_menu db =
      let opts : List MenuOption = extract_menu_options lib (inner msg.message) in
      if is_empty opts
      then db
      else (store_raw_message wire msg.id chat_jid msg.message
          ((store_menu_options msg.id chat_jid opts db).0)).0

  with_menu-Holds :
      (t : Tables) → Whole (msg.id, chat_jid) content t → HoldsIt (with_menu (sound t))
  with_menu-Holds t h =
      let opts : List MenuOption = extract_menu_options lib (inner msg.message) in
      elim (Bool-cases (is_empty opts)) [
        | inl e ↦ rw e (Whole-Holds (msg.id, chat_jid) content t h)
        | inr e ↦
            rw
              (
                e,
                store_menu_options-stored msg.id chat_jid 1 opts t
                    (extract_menu_options-IsMenu lib (inner msg.message)).numbered e,
              )
              (store_raw_message-Holds (msg.id, chat_jid) content wire msg.id chat_jid msg.message
                (stored msg.id chat_jid opts t) h)
      ]

  direct_path-Holds :
      (path : Text) (db : Db Tables)
      → HoldsIt db
      → HoldsIt ((store_direct_path msg.id chat_jid path db).0)
  direct_path-Holds path db h =
      rw h.at
        (store_direct_path-Holds (msg.id, chat_jid) content path h.tables (h.row, h.found, h.text))

  store_extras-Holds :
      (info : MediaInfo) (db : Db Tables)
      → HoldsIt db
      → HoldsIt (store_extras lib wire msg chat_jid info db)
  unfolding store_extras
  store_extras-Holds info db h =
      let menu_stored : HoldsIt (with_menu db) =
        rw h.at (with_menu-Holds h.tables (h.row, h.found, h.text)) in
      by_arms HoldsIt (is_empty info.media_type) (with_menu db)
        ((store_direct_path msg.id chat_jid (extract_direct_path (inner msg.message))
          (with_menu db)).0)
        (λ _. menu_stored)
        (λ _.
          direct_path-Holds (extract_direct_path (inner msg.message)) (with_menu db) menu_stored)

-- A message with a text, handled by an engine that refuses nothing, has a row with this text.
pub handle_message-Holds :
    (lib : Std) (wire : Wire) (client : Client) (msg : MessageEvent) (t : Tables)
    → is_empty (extract_text_content lib (inner msg.message)) ≡ false
    → Holding
        (msg.id, client.jid_string msg.chat)
        (extract_text_content lib (inner msg.message))
        (handle_message lib wire client msg (sound t))
unfolding handle_message get_chat_name query store_chat store_message exec
handle_message-Holds lib wire client msg t has_text =
    let chat_jid : Text = client.jid_string msg.chat in
    let name : Text = (get_chat_name client msg.chat chat_jid none msg.sender_user (sound t)).1 in
    let c : ChatRow = record { jid = chat_jid; name = name; last_message_time = msg.timestamp } in
    let charted : Tables = record t { chats = insert_or_replace chat_key c t.chats } in
    let content : Text = extract_text_content lib (inner msg.message) in
    let info : MediaInfo = extract_media_info lib (inner msg.message) msg.timestamp msg.id in
    let quoted : Text × Text = extract_quoted lib (inner msg.message) in
    let r : MessageRow =
      message_row msg.id chat_jid msg.sender_user content msg.timestamp msg.is_from_me info
        (quoted.0) (quoted.1) in
    let (next, put, _, finds) =
      put_message_lem r charted c (first-insert_or_replace_self chat_key c t.chats) in
    let key : Text × Text = (msg.id, chat_jid) in
    let kept : Holding key content (sound next) =
      Whole-Holds key content next
        (r, rw (finds key) (rw (same_refl {K = Text × Text} key) refl), refl) in
    rw (has_text, put) (store_extras-Holds lib wire msg chat_jid content info (sound next) kept)
