-- ===== src/Wabridge/Features/Laws.antt =====
-- A received message, from the bus to the tables and back.
use whatsmcp.Base.{◌≡◌, refl, true, false, some, [], ◌∷◌, is_empty, ok, text_eq, text_key}
use whatsmcp.Sql.{Db, insert_or_replace}
use whatsmcp.Sql.Keyed.{exec-runs}
use whatsmcp.Sql.Laws.{first-insert_or_replace_self}
use whatsmcp.Domain.Jid.{to_string}
use whatsmcp.Domain.Media.{Media}
use whatsmcp.Domain.Message.{Message, Chat}
use whatsmcp.Bridge.Store.{chat_key}
use whatsmcp.Wabridge.Bus.{publish, subscribe, add_handler, handlers_of, run_handlers}
use whatsmcp.Wabridge.Repos.{WaTables, find_media, upsert, chat_row, put_chat}
use whatsmcp.Wabridge.Repos.Found.{stored_media, save-find_media}
use whatsmcp.Wabridge.Features.{
  Event, message_received, event_name, messaging, labels, Start, started, failed_start, start_all,
  on_message,
}

-- The two features that write, started on an empty bus.
abbrev pub writing : Start
writing = start_all (messaging true true ∷ labels true ∷ []) []

-- The database behind a publication; a start that failed has no bus.
abbrev pub published : Start → Event → Db WaTables → Db WaTables
published (started bus) e db = (publish Event (Db WaTables) event_name bus e db).0
published (failed_start f) e db = db

published-on_message :
    (msg : Message) (chat : Chat) (db : Db WaTables)
    → published writing (message_received msg chat) db
      ≡ (on_message (message_received msg chat) db).0
unfolding start_all messaging labels subscribe add_handler publish handlers_of run_handlers
    event_name text_eq
published-on_message msg chat db = refl

-- A medium in a message that is published on the bus is found under the message, where the engine
-- refuses no statement and the message is of the chat that comes with it.
pub published-find_media :
    (msg : Message) (m : Media) (chat : Chat) (db : Db WaTables)
    → db.faults ≡ []
    → msg.media ≡ some m
    → is_empty m.kind ≡ false
    → msg.chat ≡ chat.jid
    → (find_media msg.id (to_string msg.chat) (published writing (message_received msg chat) db)).1
      ≡ ok (stored_media m)
unfolding on_message upsert
published-find_media msg m chat db healthy has kind same =
    let t : WaTables = record db.tables {
      chats = insert_or_replace chat_key (chat_row chat) db.tables.chats;
    } in
    rw (published-on_message msg chat db, exec-runs (put_chat (chat_row chat)) db t healthy refl)
      (save-find_media msg m (chat_row chat) (record { tables = t; faults = [] }) refl has kind
        (rw same (first-insert_or_replace_self chat_key (chat_row chat) db.tables.chats)))
