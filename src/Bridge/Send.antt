-- ===== src/Bridge/Send.antt =====
-- `sendWhatsAppMessage` of whatsapp-bridge/main.go, and the test of mute.go for a chat that a send
-- starts. The store is present.
pub mod Laws
pub mod Invariant
use whatsmcp.Base.{
  ℕ, suc, ◌+◌, Bool, true, false, not, ◌&&◌, ◌||◌, Option, none, some, List, [], ◌∷◌, ◌++◌, map,
  Text, codes, is_empty, text_eq, ltb, last_index, drop, length, contains, contains_rune,
  if◌then◌else◌,
}
use whatsmcp.Sql.{Db, query, select}
use whatsmcp.Bridge.Std.{Std}
use whatsmcp.Bridge.Media.{no_media}
use whatsmcp.Bridge.Events.{WaJid}
use whatsmcp.Bridge.Audio.{
  Floats, Analysis, analyzed, not_ogg, slice_panic, no_result, analyze_ogg_opus,
}
use whatsmcp.Bridge.Store.{Tables, ensure_chat, store_message}

pub data MediaType : Type 0 where
  media_image media_video media_audio media_document : MediaType

-- `whatsmeow.UploadResponse`.
pub record Upload : Type 0 where
  pub url : Text
  pub direct_path : Text
  pub media_key : List ℕ
  pub file_enc_sha256 : List ℕ
  pub file_sha256 : List ℕ
  pub file_length : ℕ

-- The message that is sent: the fields that the code sets.
pub data Outgoing : Type 0 where
  text_message : Text → Outgoing
  image_message : (caption mime : Text) → Upload → Outgoing
  audio_message : (mime : Text) → (seconds : ℕ) → (waveform : List ℕ) → Upload → Outgoing
  video_message : (caption mime : Text) → Upload → Outgoing
  document_message : (file_name caption mime : Text) → Upload → Outgoing

-- The client and the file system; `none` is an error. A sent message has its ID and its time.
pub record Sender : Type 0 where
  pub connected : Bool
  pub parse_jid : Text → Option WaJid
  pub jid_string : WaJid → Text
  pub twin : WaJid → Option WaJid
  pub read_file : Text → Option (List ℕ)
  pub base : Text → Text
  pub upload : List ℕ → MediaType → Option Upload
  -- Floating point, and the memory behind the bytes of a file.
  pub floats : Floats
  pub spare : List ℕ
  pub send_message : WaJid → Outgoing → Option (Text × ℕ)

pub data SendError : Type 0 where
  not_connected : SendError
  bad_jid : SendError
  unreadable_file : SendError
  failed_upload : SendError
  bad_audio : SendError
  -- The analysis slices out of range; the server recovers.
  audio_panic : SendError
  failed_send : SendError

-- A send that was made: the ID, and whether the chat is muted behind it. Else the error.
pub data Outcome : Type 0 where
  sent : (id : Text) → (mutes : Bool) → Outcome
  failed : SendError → Outcome

abbrev is_any : List Text → Text → Bool
is_any [] ext = false
is_any (e ∷ es) ext = text_eq ext e || is_any es ext

-- The `switch` on the extension.
unfoldable pub media_kind : Text → MediaType × Text
unfolding text_eq
media_kind ext =
    if is_any (codes "jpg" ∷ codes "jpeg" ∷ []) ext
    then (media_image, codes "image/jpeg")
    else if text_eq ext (codes "png")
    then (media_image, codes "image/png")
    else if text_eq ext (codes "gif")
    then (media_image, codes "image/gif")
    else if text_eq ext (codes "webp")
    then (media_image, codes "image/webp")
    else if text_eq ext (codes "ogg")
    then (media_audio, codes "audio/ogg; codecs=opus")
    else if text_eq ext (codes "mp4")
    then (media_video, codes "video/mp4")
    else if text_eq ext (codes "avi")
    then (media_video, codes "video/avi")
    else if text_eq ext (codes "mov")
    then (media_video, codes "video/quicktime")
    else if text_eq ext (codes "pdf")
    then (media_document, codes "application/pdf")
    else if text_eq ext (codes "xlsx")
    then (media_document, codes "application/vnd.openxmlformats-officedocument.spreadsheetml.sheet")
    else if text_eq ext (codes "xls")
    then (media_document, codes "application/vnd.ms-excel")
    else if text_eq ext (codes "docx")
    then (
      media_document,
      codes "application/vnd.openxmlformats-officedocument.wordprocessingml.document",
    )
    else if text_eq ext (codes "doc")
    then (media_document, codes "application/msword")
    else (media_document, codes "application/octet-stream")

abbrev behind_dot : Text → Option ℕ → Text
behind_dot path none = path
behind_dot path (some i) = drop (suc i) path

-- `strings.ToLower(mediaPath[strings.LastIndex(mediaPath, ".")+1:])`.
unfoldable pub file_ext : Std → Text → Text
unfolding last_index
file_ext lib path = map lib.to_lower (behind_dot path (last_index b'.' path))

abbrev pub is_person_chat : WaJid → Bool
is_person_chat j =
    not (is_empty j.user)
    && (text_eq j.server (codes "s.whatsapp.net") || text_eq j.server (codes "lid"))

unfoldable pub stored_messages : Text → Db Tables → Db Tables × Option ℕ
unfolding query select text_eq
stored_messages chat_jid =
    query (λ t. length (select (λ m. text_eq m.chat_jid chat_jid) t.messages))

abbrev pub none_stored : Option ℕ → Bool
none_stored none = false
none_stored (some n) = not (ltb 0 n)

pub data Composed : Type 0 where
  composed : Outgoing → Composed
  not_composed : SendError → Composed

-- A sent message is recorded under the ID that the server gave it.
unfoldable pub record_sent : Text → Text → ℕ → Text → Db Tables → Db Tables
unfolding ensure_chat store_message
record_sent id chat_jid time content db =
    if is_empty id
    then db
    else (store_message id chat_jid [] content time true no_media [] []
        ((ensure_chat chat_jid time db).0)).0

module _ (client : Sender) where
  abbrev pub twin_of : WaJid → Option WaJid → List WaJid
  twin_of j none = j ∷ []
  twin_of j (some t) =
      if is_empty t.server || (text_eq t.user j.user && text_eq t.server j.server)
      then j ∷ []
      else j ∷ t ∷ []

  -- Only a number or a hidden user has a counterpart.
  unfoldable pub chat_twins : WaJid → List WaJid
  unfolding text_eq
  chat_twins j =
      if text_eq j.server (codes "s.whatsapp.net") || text_eq j.server (codes "lid")
      then twin_of j (client.twin j)
      else j ∷ []

  -- The loop over the chat and its twin, which ends at the first that is known.
  unfoldable pub all_new : List WaJid → Db Tables → Db Tables × Bool
  unfolding stored_messages text_eq
  all_new [] db = (db, true)
  all_new (j ∷ js) db =
      let (asked, n) = stored_messages (client.jid_string j) db in
      let rest = all_new js asked in
      if not (is_person_chat j)
      then (db, false)
      else if not (none_stored n)
      then (asked, false)
      else rest

  unfoldable pub starts_chat : List WaJid → Db Tables → Db Tables × Bool
  unfolding all_new
  starts_chat js db = if is_empty js then (db, false) else all_new js db

  abbrev compose_audio : Analysis → Text → Upload → Composed
  compose_audio (analyzed seconds waveform) mime up =
      composed (audio_message mime seconds waveform up)
  compose_audio not_ogg mime up = not_composed bad_audio
  compose_audio slice_panic mime up = not_composed audio_panic
  compose_audio no_result mime up = not_composed audio_panic

  -- The only audio type is Ogg, so that every audio is analyzed.
  abbrev of_kind : MediaType → (message mime path : Text) → List ℕ → Upload → Composed
  of_kind media_image message mime path bytes up = composed (image_message message mime up)
  of_kind media_video message mime path bytes up = composed (video_message message mime up)
  of_kind media_document message mime path bytes up =
      composed (document_message (client.base path) message mime up)
  of_kind media_audio message mime path bytes up =
      compose_audio (analyze_ogg_opus client.floats client.spare bytes) mime up

  abbrev compose_upload : MediaType → (message mime path : Text) → List ℕ → Option Upload → Composed
  compose_upload kind message mime path bytes none = not_composed failed_upload
  compose_upload kind message mime path bytes (some up) = of_kind kind message mime path bytes up

  abbrev compose_media : MediaType × Text → (message path : Text) → Option (List ℕ) → Composed
  compose_media (kind, mime) message path none = not_composed unreadable_file
  compose_media (kind, mime) message path (some bytes) =
      compose_upload kind message mime path bytes (client.upload bytes kind)

  unfoldable pub compose : Std → Text → Text → Composed
  unfolding media_kind file_ext analyze_ogg_opus
  compose lib message path =
      if is_empty path
      then composed (text_message message)
      else compose_media (media_kind (file_ext lib path)) message path (client.read_file path)

  -- What is stored as the text of a sent message.
  abbrev pub sent_content : Text → Text → Text
  sent_content message path =
      if is_empty message && not (is_empty path)
      then codes "[enviado] " ++ client.base path
      else message

  abbrev pub deliver : WaJid → Text → Bool → Option (Text × ℕ) → Db Tables → Db Tables × Outcome
  deliver jid content starts none db = (db, failed failed_send)
  deliver jid content starts (some (id, time)) db =
      (record_sent id (client.jid_string jid) time content db, sent id starts)

  abbrev pub send_composed : WaJid → Text → Composed → Db Tables → Db Tables × Outcome
  send_composed jid content (not_composed e) db = (db, failed e)
  send_composed jid content (composed out) db =
      let (asked, starts) = starts_chat (chat_twins jid) db in
      deliver jid content starts (client.send_message jid out) asked

  abbrev pub recipient_jid : Text → Option WaJid
  recipient_jid recipient =
      if contains_rune b'@' recipient
      then client.parse_jid recipient
      else some (record { user = recipient; server = codes "s.whatsapp.net" })

  abbrev pub send_to : Std → Option WaJid → (message path : Text) → Db Tables → Db Tables × Outcome
  send_to lib none message path db = (db, failed bad_jid)
  send_to lib (some jid) message path db =
      send_composed jid (sent_content message path) (compose lib message path) db

  unfoldable pub send_whatsapp_message :
      Std → (recipient message path : Text) → Db Tables → Db Tables × Outcome
  unfolding compose starts_chat chat_twins record_sent contains_rune
  send_whatsapp_message lib recipient message path db =
      if not client.connected
      then (db, failed not_connected)
      else send_to lib (recipient_jid recipient) message path db
