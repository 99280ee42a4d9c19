-- ===== src/Bridge/Send/Invariant.antt =====
-- A send keeps the tables well-formed.
use whatsmcp.Base.{ℕ, Bool, true, not, Option, none, some, [], Text, is_empty, by_arms}
use whatsmcp.Sql.{Db}
use whatsmcp.Bridge.Std.{Std}
use whatsmcp.Bridge.Media.{no_media}
use whatsmcp.Bridge.Events.{WaJid}
use whatsmcp.Bridge.Store.{Tables, add_chat, ensure_chat, store_message}
use whatsmcp.Bridge.Store.Invariant.{WellFormed, exec-WellFormed, add_chat-Keeps}
use whatsmcp.Bridge.Store.Calls.{store_message-WellFormed}
use whatsmcp.Bridge.Send.{
  Sender, Outcome, failed, not_connected, Composed, composed, not_composed, starts_chat, chat_twins,
  compose, record_sent, sent_content, recipient_jid, send_to, deliver, send_composed,
  send_whatsapp_message,
}
use whatsmcp.Bridge.Send.Laws.{starts_chat-tables}

record_sent-WellFormed :
    (id chat_jid : Text) (time : ℕ) (content : Text) (db : Db Tables)
    → WellFormed db.tables
    → WellFormed ((record_sent id chat_jid time content db).tables)
unfolding record_sent ensure_chat
record_sent-WellFormed id chat_jid time content db h =
    let there : Db Tables = (ensure_chat chat_jid time db).0 in
    by_arms (λ d. WellFormed d.tables) (is_empty id) db
      ((store_message id chat_jid [] content time true no_media [] [] there).0) (λ _. h)
      (λ _.
        store_message-WellFormed id chat_jid [] content time true no_media [] [] there
          (exec-WellFormed (add_chat _) db (add_chat-Keeps _) h))

module _ (client : Sender) where
  deliver-WellFormed :
      (jid : WaJid) (content : Text) (starts : Bool) (answer : Option (Text × ℕ)) (db : Db Tables)
      → WellFormed db.tables
      → WellFormed ((deliver client jid content starts answer db).0.tables)
  deliver-WellFormed jid content starts none db h = h
  deliver-WellFormed jid content starts (some (id, time)) db h =
      record_sent-WellFormed id (client.jid_string jid) time content db h

  send_composed-WellFormed :
      (jid : WaJid) (content : Text) (out : Composed) (db : Db Tables)
      → WellFormed db.tables
      → WellFormed ((send_composed client jid content out db).0.tables)
  send_composed-WellFormed jid content (not_composed e) db h = h
  send_composed-WellFormed jid content (composed out) db h =
      deliver-WellFormed jid content ((starts_chat client (chat_twins client jid) db).1)
        (client.send_message jid out) ((starts_chat client (chat_twins client jid) db).0)
        (rw (starts_chat-tables client (chat_twins client jid) db) h)

  send_to-WellFormed :
      (lib : Std) (jid : Option WaJid) (message path : Text) (db : Db Tables)
      → WellFormed db.tables
      → WellFormed ((send_to client lib jid message path db).0.tables)
  send_to-WellFormed lib none message path db h = h
  send_to-WellFormed lib (some jid) message path db h =
      send_composed-WellFormed jid (sent_content client message path)
        (compose client lib message path) db h

  pub send_whatsapp_message-WellFormed :
      (lib : Std) (recipient message path : Text) (db : Db Tables)
      → WellFormed db.tables
      → WellFormed ((send_whatsapp_message client lib recipient message path db).0.tables)
  unfolding send_whatsapp_message
  send_whatsapp_message-WellFormed lib recipient message path db h =
      by_arms (λ (r : Db Tables × Outcome). WellFormed (r.0.tables)) (not client.connected)
        (db, failed not_connected)
        (send_to client lib (recipient_jid client recipient) message path db) (λ _. h)
        (λ _. send_to-WellFormed lib (recipient_jid client recipient) message path db h)
