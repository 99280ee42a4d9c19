-- ===== src/Wabridge/Send.antt =====
-- Sending in wabridge: `SendText` and `SendMedia` of platform/wa/send.go, and `mediaStrategy` of
-- platform/wa/media.go. The state is the messages that are out, oldest first; an uploaded file is none.
pub mod Exact
use whatsmcp.Base.{
  ℕ, suc, ◌+◌, Bool, true, false, not, Option, none, some, List, [], ◌∷◌, ◌++◌, map, Result, ok,
  err, Text, codes, contains, last_index, drop, if◌then◌else◌,
}
use whatsmcp.Domain.Jid.{Jid, is_zero, to_string}
use whatsmcp.Bridge.Std.{Std}
use whatsmcp.Bridge.Events.{WaJid}
use whatsmcp.Bridge.Audio.{
  Floats, Analysis, analyzed, not_ogg, slice_panic, no_result, analyze_ogg_opus,
}
use whatsmcp.Bridge.Send.{
  MediaType, media_image, media_video, media_audio, media_document, Upload, Outgoing, text_message,
  image_message, audio_message, video_message, document_message, media_kind,
}

abbrev pub Outbox : Type 0
Outbox = List (WaJid × Outgoing)

-- What `SendMessage` does: it returns no error; it returns one before the message is out; or the message
-- is out, and an error comes in the place of the server's answer, a timeout or the end of the context.
pub data Delivery : Type 0 where
  answered : Delivery
  not_sent : Delivery
  answer_lost : Delivery

-- The client, the file system, and floating point; `none` and false are errors.
pub record WaSender : Type 0 where
  pub lib : Std
  pub connected : Bool
  pub parse_jid : Text → Option WaJid
  pub read_file : Text → Option (List ℕ)
  pub base : Text → Text
  pub upload : List ℕ → MediaType → Option Upload
  pub floats : Floats
  pub spare : List ℕ
  pub delivers : WaJid → Outgoing → Delivery

pub data WaSendError : Type 0 where
  empty_recipient : WaSendError
  invalid_recipient : WaSendError
  offline : WaSendError
  unreadable_media : WaSendError
  not_uploaded : WaSendError
  not_analyzed : WaSendError
  -- The analysis slices out of range.
  analysis_panics : WaSendError
  not_accepted : WaSendError

-- `none` is the error nil.
abbrev pub SendAnswer : Type 0
SendAnswer = Outbox × Option WaSendError

-- The switch is that of whatsapp-bridge/main.go.
unfoldable pub media_strategy : Std → Text → MediaType × Text
unfolding media_kind
media_strategy lib ext = media_kind (map lib.to_lower ext)

abbrev pub behind_last_dot : Text → Option ℕ → Text
behind_last_dot path none = []
behind_last_dot path (some i) = drop (suc i) path

-- No dot is no extension.
unfoldable pub media_ext : Text → Text
unfolding last_index
media_ext path = behind_last_dot path (last_index b'.' path)

abbrev pub parsed_recipient : Option WaJid → Result WaSendError WaJid
parsed_recipient none = err invalid_recipient
parsed_recipient (some jid) = ok jid

abbrev pub delivered : Delivery → WaJid → Outgoing → Outbox → SendAnswer
delivered answered jid out box = (box ++ (jid, out) ∷ [], none)
delivered not_sent jid out box = (box, some not_accepted)
delivered answer_lost jid out box = (box ++ (jid, out) ∷ [], some not_accepted)

module _ (client : WaSender) where
  unfoldable pub recipient : Jid → Result WaSendError WaJid
  unfolding is_zero to_string
  recipient to =
      if is_zero to then err empty_recipient else parsed_recipient (client.parse_jid (to_string to))

  abbrev pub send_message : WaJid → Outgoing → Outbox → SendAnswer
  send_message jid out box = delivered (client.delivers jid out) jid out box

  abbrev pub text_to : Result WaSendError WaJid → Text → Outbox → SendAnswer
  text_to (err e) body box = (box, some e)
  text_to (ok jid) body box =
      if not client.connected then (box, some offline) else send_message jid (text_message body) box

  unfoldable pub send_text : Jid → Text → Outbox → SendAnswer
  unfolding recipient
  send_text to body box = text_to (recipient to) body box

  abbrev pub voice : Text → Upload → Analysis → Result WaSendError Outgoing
  voice mime up (analyzed seconds waveform) = ok (audio_message mime seconds waveform up)
  voice mime up not_ogg = err not_analyzed
  voice mime up slice_panic = err analysis_panics
  voice mime up no_result = err analysis_panics

  unfoldable pub build_media_message :
      MediaType → (mime caption path : Text) → List ℕ → Upload → Result WaSendError Outgoing
  unfolding analyze_ogg_opus contains
  build_media_message media_image mime caption path bytes up = ok (image_message caption mime up)
  build_media_message media_audio mime caption path bytes up =
      if contains mime (codes "ogg")
      then voice mime up (analyze_ogg_opus client.floats client.spare bytes)
      else ok (audio_message mime 30 [] up)
  build_media_message media_video mime caption path bytes up = ok (video_message caption mime up)
  build_media_message media_document mime caption path bytes up =
      ok (document_message (client.base path) caption mime up)

  abbrev pub send_built : WaJid → Result WaSendError Outgoing → Outbox → SendAnswer
  send_built jid (err e) box = (box, some e)
  send_built jid (ok out) box = send_message jid out box

  abbrev pub send_uploaded :
      WaJid
      → MediaType × Text
      → (path caption : Text) → List ℕ
      → Option Upload
      → Outbox
      → SendAnswer
  send_uploaded jid kind path caption bytes none box = (box, some not_uploaded)
  send_uploaded jid (kind, mime) path caption bytes (some up) box =
      send_built jid (build_media_message kind mime caption path bytes up) box

  abbrev pub send_file :
      WaJid → MediaType × Text → (path caption : Text) → Option (List ℕ) → Outbox → SendAnswer
  send_file jid kind path caption none box = (box, some unreadable_media)
  send_file jid kind path caption (some bytes) box =
      send_uploaded jid kind path caption bytes (client.upload bytes (kind.0)) box

  abbrev pub media_to : Result WaSendError WaJid → (path caption : Text) → Outbox → SendAnswer
  media_to (err e) path caption box = (box, some e)
  media_to (ok jid) path caption box =
      if not client.connected
      then (box, some offline)
      else send_file jid (media_strategy client.lib (media_ext path)) path caption
          (client.read_file path) box

  unfoldable pub send_media : Jid → (path caption : Text) → Outbox → SendAnswer
  unfolding recipient media_strategy media_ext build_media_message
  send_media to path caption box = media_to (recipient to) path caption box
