-- ===== src/Wabridge/Repos.antt =====
-- The repositories of wabridge/internal/platform/persistence/sqlite on the tables of store.go.
pub mod Found
pub mod Batch
use whatsmcp.Base.{
  ℕ, Bool, true, false, Option, none, some, List, [], ◌∷◌, map, Result, ok, err, Text, is_empty,
  text_key, pair_key, if◌then◌else◌,
}
use whatsmcp.Sql.{Db, exec, query, transaction, first, has_key, insert_or_replace}
use whatsmcp.Domain.Error.{DomainError, media_not_found, chat_name_unknown}
use whatsmcp.Domain.Jid.{Jid, to_string}
use whatsmcp.Domain.Media.{Media, new_media}
use whatsmcp.Domain.Message.{Message, Chat}
use whatsmcp.Domain.Label.{Label, LabelAssociation}
use whatsmcp.Bridge.Store.{
  ChatRow, LabelRow, LabelChatRow, chat_key, label_key, label_chat_key, bool_to_int,
}

-- A row of `messages`; the columns of a medium are empty where there is none.
pub record WaMessageRow : Type 0 where
  pub id : Text
  pub chat_jid : Text
  pub sender : Text
  pub content : Text
  pub timestamp : ℕ
  pub is_from_me : Bool
  pub media_type : Text
  pub filename : Text
  pub url : Text
  pub media_key : List ℕ
  pub file_sha256 : List ℕ
  pub file_enc_sha256 : List ℕ
  pub file_length : ℕ
  pub direct_path : Text

pub record WaTables : Type 0 where
  pub chats : List ChatRow
  pub messages : List WaMessageRow
  pub labels : List LabelRow
  pub label_chats : List LabelChatRow

abbrev pub wa_message_key : WaMessageRow → Text × Text
wa_message_key r = (r.id, r.chat_jid)

-- What the repositories answer with: an error of the domain, or one of the engine.
pub data RepoError : Type 0 where
  domain_error : DomainError → RepoError
  engine_error : RepoError

abbrev pub no_media_row : Message → WaMessageRow
no_media_row msg = record {
  id = msg.id;
  chat_jid = to_string msg.chat;
  sender = msg.sender.user;
  content = msg.content;
  timestamp = msg.timestamp;
  is_from_me = msg.is_from_me;
  media_type = [];
  filename = [];
  url = [];
  media_key = [];
  file_sha256 = [];
  file_enc_sha256 = [];
  file_length = 0;
  direct_path = [];
}

abbrev pub set_media : WaMessageRow → Option Media → WaMessageRow
set_media r none = r
set_media r (some m) = record r {
  media_type = m.kind;
  filename = m.filename;
  url = m.url;
  media_key = m.media_key;
  file_sha256 = m.file_sha256;
  file_enc_sha256 = m.file_enc_sha256;
  file_length = m.file_length;
  direct_path = m.direct_path;
}

unfoldable pub message_args : Message → WaMessageRow
unfolding to_string
message_args msg = set_media (no_media_row msg) msg.media

-- The foreign key: the chat must have its row.
unfoldable pub insert_message : WaMessageRow → WaTables → Option WaTables
unfolding first
insert_message r t = elim (first (has_key chat_key r.chat_jid) t.chats) [
  | none ↦ none
  | some _ ↦ some (record t { messages = insert_or_replace wa_message_key r t.messages })
]

unfoldable pub save : Message → Db WaTables → Db WaTables × Bool
unfolding exec insert_message message_args
save msg = exec (insert_message (message_args msg))

abbrev pub insert_all : List Message → List (WaTables → Option WaTables)
insert_all [] = []
insert_all (m ∷ ms) = insert_message (message_args m) ∷ insert_all ms

-- One transaction; the preparation of the statement may fail like one.
unfoldable pub save_batch : List Message → Db WaTables → Db WaTables × Bool
unfolding transaction insert_message message_args
save_batch msgs db = if is_empty msgs then (db, true) else transaction (some ∷ insert_all msgs) db

abbrev pub media_in : WaMessageRow → Media
media_in r = record {
  kind = r.media_type;
  filename = r.filename;
  mimetype = [];
  url = r.url;
  direct_path = r.direct_path;
  media_key = r.media_key;
  file_sha256 = r.file_sha256;
  file_enc_sha256 = r.file_enc_sha256;
  file_length = r.file_length;
}

abbrev pub of_domain : Result DomainError Media → Result RepoError Media
of_domain (ok m) = ok m
of_domain (err e) = err (domain_error e)

abbrev pub media_answer : Option (Option WaMessageRow) → Result RepoError Media
media_answer none = err engine_error
media_answer (some none) = err (domain_error media_not_found)
media_answer (some (some r)) =
    if is_empty r.media_type
    then err (domain_error media_not_found)
    else of_domain (new_media (media_in r))

unfoldable pub find_media : Text → Text → Db WaTables → Db WaTables × Result RepoError Media
unfolding query first new_media
find_media message_id chat_jid db =
    let (asked, row) =
      query (λ t. first (has_key wa_message_key (message_id, chat_jid)) t.messages) db in
    (asked, media_answer row)

abbrev pub put_chat : ChatRow → WaTables → Option WaTables
put_chat r t = some (record t { chats = insert_or_replace chat_key r t.chats })

abbrev pub chat_row : Chat → ChatRow
chat_row c = record {
  jid = to_string c.jid;
  name = c.name;
  last_message_time = c.last_message_time;
}

unfoldable pub upsert : Chat → Db WaTables → Db WaTables × Bool
unfolding exec to_string
upsert chat = exec (put_chat (chat_row chat))

abbrev name_answer : Option (Option ChatRow) → Result RepoError Text
name_answer none = err engine_error
name_answer (some none) = err (domain_error chat_name_unknown)
name_answer (some (some r)) =
    if is_empty r.name then err (domain_error chat_name_unknown) else ok r.name

unfoldable pub find_name : Jid → Db WaTables → Db WaTables × Result RepoError Text
unfolding query first to_string
find_name jid db =
    let (asked, row) = query (λ t. first (has_key chat_key (to_string jid)) t.chats) db in
    (asked, name_answer row)

abbrev pub put_label : LabelRow → WaTables → Option WaTables
put_label r t = some (record t { labels = insert_or_replace label_key r t.labels })

unfoldable pub save_label : Label → Db WaTables → Db WaTables × Bool
unfolding exec
save_label l = exec (
    put_label
      (record { label_id = l.id; name = l.name; color = l.color; deleted = bool_to_int l.deleted }))

abbrev pub put_association : LabelChatRow → WaTables → Option WaTables
put_association r t =
    some (record t { label_chats = insert_or_replace label_chat_key r t.label_chats })

unfoldable pub save_association : LabelAssociation → Db WaTables → Db WaTables × Bool
unfolding exec to_string
save_association a = exec (
    put_association (record {
      label_id = a.label_id;
      chat_jid = to_string a.chat;
      labeled = bool_to_int a.labeled;
    }))
