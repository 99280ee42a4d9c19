-- ===== src/Bridge/Store.antt =====
-- The `MessageStore` of whatsapp-bridge/main.go and menu.go: the tables and the statements on them.
-- A Boolean result is "no error".
pub mod Menus
pub mod Invariant
pub mod Calls
pub mod Rows
use whatsmcp.Base.{
  ℕ, Bool, true, false, not, ◌&&◌, ◌||◌, Option, none, some, List, [], ◌∷◌, ◌++◌, map, Text,
  is_empty, text_eq, ltb, leb, ◌==◌, take, is_some, text_key, pair_key, if◌then◌else◌,
}
use whatsmcp.Sql.{
  Db, exec, query, transaction, first, select, delete, update, has_key, insert, insert_or_replace,
  insert_or_ignore, order_by,
}
use whatsmcp.Bridge.Proto.{Inner, nil, inner, Message}
use whatsmcp.Bridge.Media.{MediaInfo, no_media}
use whatsmcp.Bridge.Menu.{MenuOption}

pub record ChatRow : Type 0 where
  pub jid : Text
  pub name : Text
  pub last_message_time : ℕ

-- Only `direct_path` is ever NULL. The file length is any number: that database/sql refuses one of 2^63
-- or more is not modelled.
pub record MessageRow : Type 0 where
  pub id : Text
  pub chat_jid : Text
  pub sender : Text
  pub content : Text
  pub timestamp : ℕ
  pub is_from_me : Bool
  pub media_type : Text
  pub filename : Text
  pub url : Text
  pub media_key : List ℕ
  pub file_sha256 : List ℕ
  pub file_enc_sha256 : List ℕ
  pub file_length : ℕ
  pub quoted_id : Text
  pub quoted_text : Text
  pub direct_path : Option Text

pub record LabelRow : Type 0 where
  pub label_id : Text
  pub name : Text
  pub color : ℕ
  pub deleted : ℕ

pub record LabelChatRow : Type 0 where
  pub label_id : Text
  pub chat_jid : Text
  pub labeled : ℕ

pub record RawRow : Type 0 where
  pub message_id : Text
  pub chat_jid : Text
  pub proto : List ℕ

pub record OptionRow : Type 0 where
  pub message_id : Text
  pub chat_jid : Text
  pub option : MenuOption

pub record Tables : Type 0 where
  pub chats : List ChatRow
  pub messages : List MessageRow
  pub labels : List LabelRow
  pub label_chats : List LabelChatRow
  pub raws : List RawRow
  pub options : List OptionRow

-- The primary keys.
abbrev pub chat_key : ChatRow → Text
chat_key r = r.jid

abbrev pub message_key : MessageRow → Text × Text
message_key r = (r.id, r.chat_jid)

abbrev pub label_key : LabelRow → Text
label_key r = r.label_id

abbrev pub label_chat_key : LabelChatRow → Text × Text
label_chat_key r = (r.label_id, r.chat_jid)

abbrev pub raw_key : RawRow → Text × Text
raw_key r = (r.message_id, r.chat_jid)

abbrev pub option_owner : OptionRow → Text × Text
option_owner r = (r.message_id, r.chat_jid)

abbrev pub put_chat : ChatRow → Tables → Option Tables
put_chat r t = some (record t { chats = insert_or_replace chat_key r t.chats })

abbrev pub add_chat : ChatRow → Tables → Option Tables
add_chat r t = some (record t { chats = insert_or_ignore chat_key r t.chats })

abbrev pub put_label : LabelRow → Tables → Option Tables
put_label r t = some (record t { labels = insert_or_replace label_key r t.labels })

abbrev pub put_label_chat : LabelChatRow → Tables → Option Tables
put_label_chat r t =
    some (record t { label_chats = insert_or_replace label_chat_key r t.label_chats })

unfoldable pub store_chat : Text → Text → ℕ → Db Tables → Db Tables × Bool
unfolding exec
store_chat jid name time =
    exec (put_chat (record { jid = jid; name = name; last_message_time = time }))

unfoldable pub ensure_chat : Text → ℕ → Db Tables → Db Tables × Bool
unfolding exec
ensure_chat jid time = exec (add_chat (record { jid = jid; name = []; last_message_time = time }))

abbrev pub bool_to_int : Bool → ℕ
bool_to_int b = if b then 1 else 0

unfoldable pub store_label : Text → Text → ℕ → Bool → Db Tables → Db Tables × Bool
unfolding exec
store_label label_id name color deleted = exec (
    put_label
      (record { label_id = label_id; name = name; color = color; deleted = bool_to_int deleted }))

unfoldable pub store_label_chat : Text → Text → Bool → Db Tables → Db Tables × Bool
unfolding exec
store_label_chat label_id chat_jid labeled = exec (
    put_label_chat
      (record { label_id = label_id; chat_jid = chat_jid; labeled = bool_to_int labeled }))

-- The foreign key: the chat must have its row.
unfoldable pub put_message : MessageRow → Tables → Option Tables
unfolding first
put_message r t = elim (first (has_key chat_key r.chat_jid) t.chats) [
  | none ↦ none
  | some _ ↦ some (record t { messages = insert_or_replace message_key r t.messages })
]

-- The columns of the `INSERT` with their values.
abbrev pub message_row :
    (id chat_jid sender content : Text) (timestamp : ℕ) (is_from_me : Bool)
    → MediaInfo
    → (quoted_id quoted_text : Text) → MessageRow
message_row id chat_jid sender content timestamp is_from_me info quoted_id quoted_text = record {
  id = id;
  chat_jid = chat_jid;
  sender = sender;
  content = content;
  timestamp = timestamp;
  is_from_me = is_from_me;
  media_type = info.media_type;
  filename = info.filename;
  url = info.url;
  media_key = info.media_key;
  file_sha256 = info.file_sha256;
  file_enc_sha256 = info.file_enc_sha256;
  file_length = info.file_length;
  quoted_id = quoted_id;
  quoted_text = quoted_text;
  direct_path = none;
}

-- `StoreMessage`: the statement names no `direct_path`, so the new row has none.
unfoldable pub store_message :
    (id chat_jid sender content : Text)
    → (timestamp : ℕ) → (is_from_me : Bool) → MediaInfo
    → (quoted_id quoted_text : Text) → Db Tables
    → Db Tables × Bool
unfolding exec put_message
store_message id chat_jid sender content timestamp is_from_me info quoted_id quoted_text db =
    if is_empty content && is_empty info.media_type
    then (db, true)
    else exec
        (put_message
          (message_row id chat_jid sender content timestamp is_from_me info quoted_id quoted_text))
        db

abbrev pub set_content : Text → MessageRow → MessageRow
set_content c r = record r { content = c }

-- The `WHERE` of the `UPDATE`: the message, with no content yet.
abbrev pub lacks_content : Text → Text → MessageRow → Bool
lacks_content id chat_jid r = has_key message_key (id, chat_jid) r && is_empty r.content

-- An `UPDATE` of messages.
abbrev pub change_messages :
    (MessageRow → Bool) → (MessageRow → MessageRow) → Tables → Option Tables
change_messages p f t = some (record t { messages = update p f t.messages })

-- The row that the first query of `FillHistoryMessage` finds: `none` is any error of it.
abbrev pub found {ℓ} : {R : Type ℓ} → Option (Option R) → Option R
found none = none
found (some r) = r

unfoldable pub fill_history_message : Text → Text → Text → Db Tables → Db Tables × Bool
unfolding exec query first
fill_history_message id chat_jid content db =
    let (asked, row) = query (λ t. first (has_key message_key (id, chat_jid)) t.messages) db in
    if not (is_some (found row))
    then (asked, false)
    else if is_empty content
    then (asked, true)
    else ((exec (change_messages (lacks_content id chat_jid) (set_content content)) asked).0, true)

abbrev pub set_direct_path : Text → MessageRow → MessageRow
set_direct_path p r = record r { direct_path = some p }

unfoldable pub store_direct_path : Text → Text → Text → Db Tables → Db Tables × Bool
unfolding exec
store_direct_path id chat_jid path db =
    if is_empty path
    then (db, true)
    else exec (change_messages (has_key message_key (id, chat_jid)) (set_direct_path path)) db

-- An absent row, NULL and an error read as the empty path.
abbrev path_in : Option MessageRow → Text
path_in none = []
path_in (some r) = elim r.direct_path [ some p ↦ p | none ↦ [] ]

unfoldable pub get_direct_path : Text → Text → Db Tables → Db Tables × Text
unfolding query first
get_direct_path id chat_jid db =
    let (asked, row) = query (λ t. first (has_key message_key (id, chat_jid)) t.messages) db in
    (asked, path_in (found row))

-- `ORDER BY timestamp DESC`.
abbrev pub newer : MessageRow → MessageRow → Bool
newer r s = leb s.timestamp r.timestamp

unfoldable pub get_messages : Text → ℕ → Db Tables → Db Tables × Option (List MessageRow)
unfolding query select order_by
get_messages chat_jid limit =
    query (λ t. take limit (order_by newer (select (λ r. text_eq r.chat_jid chat_jid) t.messages)))

abbrev pub set_media : Text → List ℕ → List ℕ → List ℕ → ℕ → MessageRow → MessageRow
set_media url key sha enc_sha length r = record r {
  url = url;
  media_key = key;
  file_sha256 = sha;
  file_enc_sha256 = enc_sha;
  file_length = length;
}

unfoldable pub store_media_info :
    Text → Text → Text → List ℕ → List ℕ → List ℕ → ℕ → Db Tables → Db Tables × Bool
unfolding exec
store_media_info id chat_jid url key sha enc_sha length =
    exec
      (change_messages (has_key message_key (id, chat_jid)) (set_media url key sha enc_sha length))

-- The columns of the `SELECT`, in the variables of the `Scan`.
abbrev info_in : Option MessageRow → Option MediaInfo
info_in none = none
info_in (some r) = some (record {
  media_type = r.media_type;
  filename = r.filename;
  url = r.url;
  media_key = r.media_key;
  file_sha256 = r.file_sha256;
  file_enc_sha256 = r.file_enc_sha256;
  file_length = r.file_length;
})

-- `none` is the error, `sql.ErrNoRows` included.
unfoldable pub get_media_info : Text → Text → Db Tables → Db Tables × Option MediaInfo
unfolding query first
get_media_info id chat_jid db =
    let (asked, row) = query (λ t. first (has_key message_key (id, chat_jid)) t.messages) db in
    (asked, info_in (found row))

-- The map from chats to their last times, with its entries in the order of the query.
unfoldable pub get_chats : Db Tables → Db Tables × Option (List (Text × ℕ))
unfolding query order_by
get_chats = query (λ t.
    map (λ c. (c.jid, c.last_message_time))
      (order_by (λ c d. leb d.last_message_time c.last_message_time) t.chats))
