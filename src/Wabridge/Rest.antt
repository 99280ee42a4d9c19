-- ===== src/Wabridge/Rest.antt =====
-- The REST server of wabridge, delivery/rest: the handlers, the view of the log, and the routes. The
-- wiring of cmd/bridge gives it the client, the download use case and the log's path.
pub mod Laws
pub mod View
use whatsmcp.Base.{
  ℕ, ◌-◌, Bool, true, false, not, ◌&&◌, ◌||◌, ◌==◌, Option, none, some, List, [], ◌∷◌, Result, ok,
  err, Text, codes, is_empty, length, drop, ltb, if◌then◌else◌,
}
use whatsmcp.Sql.{Db}
use whatsmcp.Domain.Error.{DomainError}
use whatsmcp.Domain.Jid.{Jid, parse_recipient}
use whatsmcp.Bridge.Rest.{HttpCall, SendMessageRequest, DownloadMediaRequest}
use whatsmcp.Wabridge.Repos.{WaTables}
use whatsmcp.Wabridge.Send.{
  Outbox, WaSender, WaSendError, analysis_panics, SendAnswer, send_text, send_media,
}
use whatsmcp.Wabridge.Download.{Host, WaDownloadError, DownloadResult, download}

-- What a handler encodes, `sendResponse` and `downloadResponse` among it.
pub data WaContent : Type 0 where
  sent_to : (recipient : Text) → WaContent
  bad_recipient : DomainError → WaContent
  send_failed : WaSendError → WaContent
  downloaded : DownloadResult → WaContent
  download_failed : WaDownloadError → WaContent
  sync_triggered : WaContent
  sync_failed : WaContent

-- `http.Error`, a status and a JSON body, the text of the log, the mux's own answer, or the connection
-- closed behind a panic.
pub data WaResponse : Type 0 where
  error_text : ℕ → Text → WaResponse
  json_body : ℕ → WaContent → WaResponse
  log_text : List ℕ → WaResponse
  page_not_found : WaResponse
  connection_closed : WaResponse

abbrev pub wrong_method : WaResponse
wrong_method = error_text 405 (codes "Method not allowed")

abbrev pub bad_format : WaResponse
bad_format = error_text 400 (codes "Invalid request format")

abbrev pub no_recipient : WaResponse
no_recipient = error_text 400 (codes "Recipient is required")

abbrev pub no_message : WaResponse
no_message = error_text 400 (codes "Message or media path is required")

abbrev pub no_media_keys : WaResponse
no_media_keys = error_text 400 (codes "Message ID and Chat JID are required")

-- The file at the log's path: its bytes, and whether the system examines it and seeks in it.
pub record LogFile : Type 0 where
  pub bytes : List ℕ
  pub stats : Bool
  pub seeks : Bool

abbrev pub default_tail_bytes : ℕ
default_tail_bytes = 65536

-- `NewLogViewer`; a negative size is given as 0.
unfoldable pub tail_or_default : ℕ → ℕ
tail_or_default size = if size == 0 then default_tail_bytes else size

-- `ServeHTTP` of the viewer; `none` where the file does not open.
unfoldable pub serve_log : ℕ → Option LogFile → WaResponse
serve_log tail none = error_text 404 (codes "log unavailable")
serve_log tail (some f) =
    if not f.stats
    then error_text 500 (codes "log unavailable")
    else if not (ltb tail (length f.bytes))
    then log_text f.bytes
    else if not f.seeks
    then error_text 500 (codes "log unavailable")
    else log_text (drop (length f.bytes - tail) f.bytes)

pub data WaRequest : Type 0 where
  send_call : HttpCall SendMessageRequest → WaRequest
  download_call : HttpCall DownloadMediaRequest → WaRequest
  sync_labels_call : WaRequest
  logs_call : WaRequest
  other_call : WaRequest

-- What the handlers change: the database's queries, the disk, and what WhatsApp took.
pub record World (D : Type 0) : Type 0 where
  pub db : Db WaTables
  pub disk : D
  pub outbox : Outbox

-- `Server`, with the session's login and the fetch of the app state for `SyncLabels`.
pub record WaServer (D : Type 0) : Type 0 where
  pub sender : WaSender
  pub host : Host D
  pub base_dir : Text
  pub has_session : Bool
  pub fetches_app_state : Bool
  pub log_file : Option LogFile

module _ {D : Type 0} (server : WaServer D) where
  abbrev pub write_send : Text → Option WaSendError → WaResponse
  write_send recipient none = json_body 200 (sent_to recipient)
  write_send recipient (some analysis_panics) = connection_closed
  write_send recipient (some e) = json_body 500 (send_failed e)

  abbrev pub answer_send : Text → World D → SendAnswer → World D × WaResponse
  answer_send recipient w a = (record w { outbox = a.0 }, write_send recipient (a.1))

  abbrev pub send_as : SendMessageRequest → Jid → Outbox → SendAnswer
  send_as req to box =
      if not (is_empty req.media_path)
      then send_media server.sender to req.media_path req.message box
      else send_text server.sender to req.message box

  abbrev pub send_parsed :
      SendMessageRequest → Result DomainError Jid → World D → World D × WaResponse
  send_parsed req (err e) w = (w, json_body 500 (bad_recipient e))
  send_parsed req (ok to) w = answer_send req.recipient w (send_as req to w.outbox)

  abbrev pub send_request : Option SendMessageRequest → World D → World D × WaResponse
  send_request none w = (w, bad_format)
  send_request (some req) w =
      if is_empty req.recipient
      then (w, no_recipient)
      else if is_empty req.message && is_empty req.media_path
      then (w, no_message)
      else send_parsed req (parse_recipient req.recipient) w

  unfoldable pub wa_handle_send : HttpCall SendMessageRequest → World D → World D × WaResponse
  unfolding send_media send_text parse_recipient
  wa_handle_send r w = if not r.post then (w, wrong_method) else send_request r.body w

  abbrev pub answer_download : Result WaDownloadError DownloadResult → WaResponse
  answer_download (ok r) = json_body 200 (downloaded r)
  answer_download (err e) = json_body 500 (download_failed e)

  abbrev pub download_request : Option DownloadMediaRequest → World D → World D × WaResponse
  download_request none w = (w, bad_format)
  download_request (some req) w =
      let (asked, done) =
        download server.host server.base_dir req.message_id req.chat_jid w.db w.disk in
      if is_empty req.message_id || is_empty req.chat_jid
      then (w, no_media_keys)
      else (record w { db = asked; disk = done.0 }, answer_download (done.1))

  unfoldable pub wa_handle_download : HttpCall DownloadMediaRequest → World D → World D × WaResponse
  unfolding download
  wa_handle_download r w = if not r.post then (w, wrong_method) else download_request r.body w

  -- `SyncLabels` of platform/wa/session.go: whether it has no error.
  unfoldable pub syncs_labels : Bool
  syncs_labels = if not server.has_session then false else server.fetches_app_state

  -- A failed sync has status 200 too.
  unfoldable pub wa_handle_sync_labels : World D → World D × WaResponse
  unfolding syncs_labels
  wa_handle_sync_labels w =
      (w, if not syncs_labels then json_body 200 sync_failed else json_body 200 sync_triggered)

  -- The mux of `Handler`; `NewServer` gives the viewer the size 0.
  unfoldable pub wa_handle : WaRequest → World D → World D × WaResponse
  unfolding wa_handle_send wa_handle_download wa_handle_sync_labels serve_log tail_or_default
  wa_handle (send_call r) w = wa_handle_send r w
  wa_handle (download_call r) w = wa_handle_download r w
  wa_handle sync_labels_call w = wa_handle_sync_labels w
  wa_handle logs_call w = (w, serve_log (tail_or_default 0) server.log_file)
  wa_handle other_call w = (w, page_not_found)

  -- The requests in the order in which they are answered, with the answers.
  unfoldable pub wa_serve : List WaRequest → World D → World D × List WaResponse
  unfolding wa_handle
  wa_serve [] w = (w, [])
  wa_serve (r ∷ rs) w =
      let (next, answer) = wa_handle r w in
      let (last, answers) = wa_serve rs next in (last, answer ∷ answers)
