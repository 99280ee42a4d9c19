-- ===== src/Bridge/Send/Laws.antt =====
-- What a send leaves in the store.
use whatsmcp.Base.{
  ℕ, ◌≡◌, refl, Bool, true, false, not, Option, none, some, List, [], ◌∷◌, Text, is_empty, text_key,
  pair_key, same_refl, by_arms,
}
use whatsmcp.Sql.{Db, query, insert_or_ignore}
use whatsmcp.Sql.Laws.{first-insert_or_ignore_self}
use whatsmcp.Bridge.Std.{Std}
use whatsmcp.Bridge.Media.{no_media}
use whatsmcp.Bridge.Events.{WaJid}
use whatsmcp.Bridge.Store.{
  Tables, ChatRow, MessageRow, message_row, chat_key, add_chat, put_message, ensure_chat,
  store_message,
}
use whatsmcp.Bridge.Store.Rows.{Healthy, find_message, exec-Healthy, put_message_lem}
use whatsmcp.Bridge.Send.{
  Sender, SendError, Outcome, failed, Composed, composed, not_composed, stored_messages, all_new,
  starts_chat, chat_twins, compose, record_sent, sent_content, recipient_jid, send_to, deliver,
  send_composed, send_whatsapp_message, is_person_chat, none_stored,
}

-- With no statement refused, a sent message that has a text is stored under its ID as the account's
-- own, whether or not its chat had a row before.
pub record_sent_lem :
    (id chat_jid : Text) (time : ℕ) (content : Text) (db : Db Tables)
    → Healthy db
    → is_empty id ≡ false
    → is_empty content ≡ false
    → find_message (id, chat_jid) ((record_sent id chat_jid time content db).tables)
      ≡ some (message_row id chat_jid [] content time true no_media [] [])
unfolding record_sent ensure_chat store_message
record_sent_lem id chat_jid time content db h has_id has_content =
    let c : ChatRow = record { jid = chat_jid; name = []; last_message_time = time } in
    let t : Tables = record db.tables { chats = insert_or_ignore chat_key c db.tables.chats } in
    let r : MessageRow = message_row id chat_jid [] content time true no_media [] [] in
    let (found, at) = first-insert_or_ignore_self chat_key c db.tables.chats in
    let (next, put, _, finds) = put_message_lem r t found at in
    rw
      (
        has_id,
        has_content,
        exec-Healthy (add_chat c) db t h refl,
        exec-Healthy (put_message r) (record { tables = t; faults = [] }) next refl put,
      )
      (rw (finds (id, chat_jid)) (rw (same_refl {K = Text × Text} (id, chat_jid)) refl))

abbrev SameTables : Db Tables → Db Tables × Bool → Type 0
SameTables db r = r.0.tables ≡ db.tables

module _ (client : Sender) where
  all_new-tables : (js : List WaJid) (db : Db Tables) → (all_new client js db).0.tables ≡ db.tables
  unfolding all_new stored_messages query
  all_new-tables [] db = refl
  all_new-tables (j ∷ js) db =
      let asked : Db Tables = (stored_messages (client.jid_string j) db).0 in
      by_arms (SameTables db) (not (is_person_chat j)) (db, false) _ (λ _. refl)
        (λ _.
          by_arms (SameTables db) (not (none_stored ((stored_messages (client.jid_string j) db).1)))
            (asked, false) (all_new client js asked) (λ _. refl) (λ _. all_new-tables js asked))

  pub starts_chat-tables :
      (js : List WaJid) (db : Db Tables) → (starts_chat client js db).0.tables ≡ db.tables
  unfolding starts_chat
  starts_chat-tables js db =
      by_arms (SameTables db) (is_empty js) (db, false) (all_new client js db) (λ _. refl)
        (λ _. all_new-tables js db)

  -- The tables are those of before where the outcome is an error.
  abbrev FailsClean : Db Tables → Db Tables × Outcome → Type 0
  FailsClean db r = (e : SendError) → r.1 ≡ failed e → r.0.tables ≡ db.tables

  deliver-FailsClean :
      (jid : WaJid) (content : Text) (starts : Bool) (answer : Option (Text × ℕ))
      (asked db : Db Tables)
      → asked.tables ≡ db.tables
      → FailsClean db (deliver client jid content starts answer asked)
  deliver-FailsClean jid content starts none asked db same_tables e h = same_tables
  deliver-FailsClean jid content starts (some (id, time)) asked db same_tables e h = cc

  send_composed-FailsClean :
      (jid : WaJid) (content : Text) (out : Composed) (db : Db Tables)
      → FailsClean db (send_composed client jid content out db)
  send_composed-FailsClean jid content (not_composed e) db = λ _ _. refl
  send_composed-FailsClean jid content (composed out) db =
      deliver-FailsClean jid content ((starts_chat client (chat_twins client jid) db).1)
        (client.send_message jid out) ((starts_chat client (chat_twins client jid) db).0) db
        (starts_chat-tables (chat_twins client jid) db)

  send_to-FailsClean :
      (lib : Std) (jid : Option WaJid) (message path : Text) (db : Db Tables)
      → FailsClean db (send_to client lib jid message path db)
  send_to-FailsClean lib none message path db = λ _ _. refl
  send_to-FailsClean lib (some jid) message path db =
      send_composed-FailsClean jid (sent_content client message path)
        (compose client lib message path) db

  -- A send that fails, for whichever reason, leaves no trace in the store.
  pub send_whatsapp_message_failed :
      (lib : Std) (recipient message path : Text) (db : Db Tables) (e : SendError)
      → (send_whatsapp_message client lib recipient message path db).1 ≡ failed e
      → (send_whatsapp_message client lib recipient message path db).0.tables ≡ db.tables
  unfolding send_whatsapp_message
  send_whatsapp_message_failed lib recipient message path db =
      by_arms (FailsClean db) (not client.connected) _ _ (λ _ _ _. refl)
        (λ _. send_to-FailsClean lib (recipient_jid client recipient) message path db)
