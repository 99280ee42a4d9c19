-- ===== src/Bridge/Rest.antt =====
-- The REST server of whatsapp-bridge/main.go: its handlers, and the guard before them.
pub mod Laws
pub mod Invariant
pub mod Serve
use whatsmcp.Base.{
  ℕ, Bool, true, false, not, ◌&&◌, ◌||◌, Option, none, some, List, [], ◌∷◌, Result, ok, err, Text,
  codes, is_empty, text_eq, pair_key, if◌then◌else◌,
}
use whatsmcp.Sql.{Db, exec, delete, has_key}
use whatsmcp.Bridge.Std.{Std}
use whatsmcp.Bridge.Events.{WaJid}
use whatsmcp.Bridge.Menu.{MenuOption}
use whatsmcp.Bridge.Store.{Tables, message_key, change_messages, set_content}
use whatsmcp.Bridge.Store.Menus.{Wire, MenuError, get_menu_options}
use whatsmcp.Bridge.Send.{
  Sender, SendError, audio_panic, Outcome, sent, failed, send_whatsapp_message,
}
use whatsmcp.Bridge.Select.{SelectOptionRequest, Replier, SelectError, Selection, select_option}
use whatsmcp.Bridge.Download.{
  Files, Download, fetched, cached, not_downloaded, DownloadError, download_media,
}

-- A request: whether its method is POST, and its body, `none` where the decoder fails.
pub record HttpCall {ℓ} (A : Type ℓ) : Type ℓ where
  pub post : Bool
  pub body : Option A

pub record SendMessageRequest : Type 0 where
  pub recipient : Text
  pub message : Text
  pub media_path : Text

pub record RevokeRequest : Type 0 where
  pub message_id : Text
  pub chat_jid : Text
  pub new_text : Text

pub record DownloadMediaRequest : Type 0 where
  pub message_id : Text
  pub chat_jid : Text

-- What a handler encodes.
pub data Content : Type 0 where
  labels_synced : Content
  labels_failed : Content
  pairing_code : Text → Content
  no_client : Content
  already_paired : Content
  pairing_failed : Content
  message_sent : (recipient id : Text) → Content
  not_sent : SendError → Content
  option_chosen : (title chat_jid id : Text) → Content
  not_chosen : SelectError → Content
  chat_required : Content
  menu_options : (id : Text) → List MenuOption → Content
  no_menu : MenuError → Content
  message_deleted : (id : Text) → Content
  message_edited : (id : Text) → Content
  correction_failed : Content
  media_downloaded : (media_type filename path : Text) → Content
  media_failed : DownloadError → Content

-- `http.Error`, or a status and a JSON body, or the connection closed behind a panic.
pub data Response : Type 0 where
  http_error : ℕ → Text → Response
  json : ℕ → Content → Response
  aborted : Response

abbrev pub method_not_allowed : Response
method_not_allowed = http_error 405 (codes "Method not allowed")

abbrev pub invalid_format : Response
invalid_format = http_error 400 (codes "Invalid request format")

abbrev pub keys_required : Response
keys_required = http_error 400 (codes "message_id and chat_jid are required")

abbrev pub recipient_required : Response
recipient_required = http_error 400 (codes "Recipient is required")

abbrev pub message_required : Response
message_required = http_error 400 (codes "Message or media path is required")

abbrev pub media_keys_required : Response
media_keys_required = http_error 400 (codes "Message ID and Chat JID are required")

-- Without the text of the parser's error.
abbrev pub bad_chat_jid : Response
bad_chat_jid = http_error 400 (codes "Error parsing chat JID")

-- `BuildRevoke` and `BuildEdit`.
pub data Correction : Type 0 where
  revoke_message : (id : Text) → Correction
  edit_message : (id new_text : Text) → Correction

-- What the handlers use: of the client also whether it is there and logged in, the pairing by number,
-- the sync of labels, and the sending of a correction, which says whether there was no error.
pub record Server : Type 0 where
  pub lib : Std
  pub wire : Wire
  pub sender : Sender
  pub replier : Replier
  pub files : Files
  pub client : Bool
  pub logged_in : Bool
  pub pair_phone : Text → Option Text
  pub fetch_app_state : Bool
  pub send_correction : WaJid → Correction → Bool
  pub store_open : Bool

-- `DELETE FROM messages WHERE id = ? AND chat_jid = ?`.
unfoldable pub delete_message : Text → Text → Tables → Option Tables
unfolding delete
delete_message id chat_jid t =
    some (record t { messages = delete (has_key message_key (id, chat_jid)) t.messages })

-- What happened at WhatsApp, in the store; the statement's error is ignored.
unfoldable pub mirror : Bool → RevokeRequest → Db Tables → Db Tables
unfolding exec delete_message
mirror store_open req db =
    let deleted = (exec (delete_message req.message_id req.chat_jid) db).0 in
    let edited =
      (exec
        (change_messages (has_key message_key (req.message_id, req.chat_jid))
          (set_content req.new_text))
        db).0 in
    if not store_open then db else if is_empty req.new_text then deleted else edited

module _ (server : Server) where
  unfoldable pub handle_sync_labels : Db Tables → Db Tables × Response
  handle_sync_labels db = (
    db,
    if not server.client || not server.logged_in
        then http_error 503 (codes "not connected")
        else if server.fetch_app_state
        then json 200 labels_synced
        else json 200 labels_failed,
  )

  abbrev paired : Option Text → Response
  paired none = json 500 pairing_failed
  paired (some code) = json 200 (pairing_code code)

  abbrev pair_body : Option Text → Response
  pair_body none = http_error 400 (codes "Invalid request")
  pair_body (some phone) =
      if not server.client
      then json 500 no_client
      else if server.logged_in
      then json 400 already_paired
      else paired (server.pair_phone phone)

  unfoldable pub handle_pair_phone : HttpCall Text → Db Tables → Db Tables × Response
  handle_pair_phone r db = (db, if not r.post then method_not_allowed else pair_body r.body)

  abbrev pub send_answer : Text → Outcome → Response
  send_answer recipient (sent id mutes) = json 200 (message_sent recipient id)
  send_answer recipient (failed audio_panic) = aborted
  send_answer recipient (failed e) = json 500 (not_sent e)

  abbrev pub send_body : Option SendMessageRequest → Db Tables → Db Tables × Response
  send_body none db = (db, invalid_format)
  send_body (some req) db =
      let (done, outcome) =
        send_whatsapp_message server.sender server.lib req.recipient req.message req.media_path
          db in
      if is_empty req.recipient
      then (db, recipient_required)
      else if is_empty req.message && is_empty req.media_path
      then (db, message_required)
      else (done, send_answer req.recipient outcome)

  unfoldable pub handle_send : HttpCall SendMessageRequest → Db Tables → Db Tables × Response
  unfolding send_whatsapp_message
  handle_send r db = if not r.post then (db, method_not_allowed) else send_body r.body db

  abbrev select_answer : Text → Result SelectError (Text × Text) → Response
  select_answer chat_jid (err e) = json 400 (not_chosen e)
  select_answer chat_jid (ok (id, title)) = json 200 (option_chosen title chat_jid id)

  abbrev pub select_body : Option SelectOptionRequest → Db Tables → Db Tables × Response
  select_body none db = (db, invalid_format)
  select_body (some req) db =
      let (done, s) = select_option server.replier server.lib server.wire req db in
      (done, select_answer req.chat_jid s.outcome)

  unfoldable pub handle_select_option :
      HttpCall SelectOptionRequest → Db Tables → Db Tables × Response
  unfolding select_option
  handle_select_option r db = if not r.post then (db, method_not_allowed) else select_body r.body db

  abbrev menu_answer : Result MenuError (Text × List MenuOption) → Response
  menu_answer (err e) = json 404 (no_menu e)
  menu_answer (ok (id, opts)) = json 200 (menu_options id opts)

  unfoldable pub handle_menu_options :
      (message_id chat_jid : Text) → Db Tables → Db Tables × Response
  unfolding get_menu_options
  handle_menu_options message_id chat_jid db =
      let (asked, menu) = get_menu_options message_id chat_jid db in
      if is_empty chat_jid then (db, json 400 chat_required) else (asked, menu_answer menu)

  abbrev pub correction : RevokeRequest → Correction
  correction req =
      if is_empty req.new_text
      then revoke_message req.message_id
      else edit_message req.message_id req.new_text

  abbrev corrected : RevokeRequest → Content
  corrected req =
      if is_empty req.new_text
      then message_deleted req.message_id
      else message_edited req.message_id

  abbrev pub revoke_in : RevokeRequest → Option WaJid → Db Tables → Db Tables × Response
  revoke_in req none db = (db, bad_chat_jid)
  revoke_in req (some chat) db =
      if not (server.send_correction chat (correction req))
      then (db, json 500 correction_failed)
      else (mirror server.store_open req db, json 200 (corrected req))

  abbrev pub revoke_body : Option RevokeRequest → Db Tables → Db Tables × Response
  revoke_body none db = (db, invalid_format)
  revoke_body (some req) db =
      if is_empty req.message_id || is_empty req.chat_jid
      then (db, keys_required)
      else revoke_in req (server.sender.parse_jid req.chat_jid) db

  unfoldable pub handle_revoke : HttpCall RevokeRequest → Db Tables → Db Tables × Response
  unfolding mirror
  handle_revoke r db = if not r.post then (db, method_not_allowed) else revoke_body r.body db

  abbrev download_answer : Download → Response
  download_answer (fetched media_type filename path here bytes) =
      json 200 (media_downloaded media_type filename path)
  download_answer (cached media_type filename path) =
      json 200 (media_downloaded media_type filename path)
  download_answer (not_downloaded e) = json 500 (media_failed e)

  abbrev pub download_body : Option DownloadMediaRequest → Db Tables → Db Tables × Response
  download_body none db = (db, invalid_format)
  download_body (some req) db =
      let (done, d) = download_media server.files req.message_id req.chat_jid db in
      if is_empty req.message_id || is_empty req.chat_jid
      then (db, media_keys_required)
      else (done, download_answer d)

  unfoldable pub handle_download : HttpCall DownloadMediaRequest → Db Tables → Db Tables × Response
  unfolding download_media
  handle_download r db = if not r.post then (db, method_not_allowed) else download_body r.body db
