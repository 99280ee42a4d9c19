-- ===== src/Wabridge/Repos/Found.antt =====
-- What the repositories save is found again.
use whatsmcp.Base.{◌≡◌, refl, false, some, [], is_empty, ok, text_key, pair_key}
use whatsmcp.Sql.{Db, query, first, has_key, insert_or_replace}
use whatsmcp.Sql.Keyed.{exec-runs}
use whatsmcp.Sql.Laws.{first-insert_or_replace_self}
use whatsmcp.Domain.Jid.{to_string}
use whatsmcp.Domain.Media.{Media, new_media}
use whatsmcp.Domain.Message.{Message}
use whatsmcp.Bridge.Store.{ChatRow, chat_key}
use whatsmcp.Wabridge.Repos.{
  WaTables, WaMessageRow, wa_message_key, no_media_row, set_media, media_answer, message_args,
  insert_message, save, find_media,
}

-- The medium as the tables hold it, without its mimetype.
abbrev pub stored_media : Media → Media
stored_media m = record m { mimetype = [] }

media_answer_row :
    (msg : Message) (m : Media)
    → is_empty m.kind ≡ false
    → media_answer (some (some (set_media (no_media_row msg) (some m)))) ≡ ok (stored_media m)
unfolding new_media
media_answer_row msg m kind = rw kind refl

-- A medium that is saved with a message, in a chat that has its row, is found again.
pub save-find_media :
    (msg : Message) (m : Media) (chat : ChatRow) (db : Db WaTables)
    → db.faults ≡ []
    → msg.media ≡ some m
    → is_empty m.kind ≡ false
    → first (has_key chat_key (to_string msg.chat)) db.tables.chats ≡ some chat
    → (find_media msg.id (to_string msg.chat) ((save msg db).0)).1 ≡ ok (stored_media m)
unfolding save find_media message_args insert_message query
save-find_media msg m chat db healthy has kind there =
    let r : WaMessageRow = set_media (no_media_row msg) (some m) in
    let t : WaTables = record db.tables {
      messages = insert_or_replace wa_message_key r db.tables.messages;
    } in
    rw
      (
        has,
        exec-runs (insert_message r) db t healthy (rw (there, insert_message) refl),
        first-insert_or_replace_self wa_message_key r db.tables.messages,
      )
      (media_answer_row msg m kind)
