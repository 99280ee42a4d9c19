-- ===== src/Wabridge/Send/Exact.antt =====
-- A send that has no error sent one message, and a send that has one sent this one or none.
use whatsmcp.Base.{
  ◌≡◌, ◌⊎◌, inl, inr, refl, not, Option, none, some, List, [], ◌∷◌, ◌++◌, ℕ, Result, ok, err, Text,
  by_arms,
}
use whatsmcp.Domain.Jid.{Jid}
use whatsmcp.Bridge.Events.{WaJid}
use whatsmcp.Bridge.Send.{MediaType, Upload, Outgoing, text_message}
use whatsmcp.Wabridge.Send.{
  Delivery, answered, not_sent, answer_lost, delivered, Outbox, WaSender, WaSendError,
  empty_recipient, invalid_recipient, offline, unreadable_media, not_uploaded, not_analyzed,
  analysis_panics, not_accepted, SendAnswer, media_strategy, media_ext, recipient, send_message,
  text_to, send_text, build_media_message, send_built, send_uploaded, send_file, media_to,
  send_media,
}

module _ (client : WaSender) where
  -- One message went to the recipient, and it is as it should be.
  abbrev pub OneSent : Result WaSendError WaJid → (Outgoing → Type 0) → Outbox → Outbox → Type 0
  OneSent to Is box sent =
      (jid : WaJid) × (out : Outgoing) × (to ≡ ok jid) × Is out × (sent ≡ box ++ (jid, out) ∷ [])

  -- With the error that no answer came, one message went or none; with another, none.
  abbrev pub SentUnless :
      Result WaSendError WaJid → (Outgoing → Type 0) → Outbox → Outbox → Option WaSendError → Type 0
  SentUnless to Is box sent none = OneSent to Is box sent
  SentUnless to Is box sent (some not_accepted) = (sent ≡ box) ⊎ OneSent to Is box sent
  SentUnless to Is box sent (some _) = sent ≡ box

  none-SentUnless :
      (to : Result WaSendError WaJid) (Is : Outgoing → Type 0) (box : Outbox) (e : WaSendError)
      → SentUnless to Is box box (some e)
  none-SentUnless to Is box empty_recipient = refl
  none-SentUnless to Is box invalid_recipient = refl
  none-SentUnless to Is box offline = refl
  none-SentUnless to Is box unreadable_media = refl
  none-SentUnless to Is box not_uploaded = refl
  none-SentUnless to Is box not_analyzed = refl
  none-SentUnless to Is box analysis_panics = refl
  none-SentUnless to Is box not_accepted = inl refl

  abbrev pub SentIf : Result WaSendError WaJid → (Outgoing → Type 0) → Outbox → SendAnswer → Type 0
  SentIf to Is box answer = SentUnless to Is box (answer.0) (answer.1)

  -- The message that `path` with its caption makes: the file is read, uploaded as the type of its
  -- extension, and built.
  pub record IsMediaMessage (path caption : Text) (out : Outgoing) : Type 0 where
    pub bytes : List ℕ
    pub up : Upload
    pub read : client.read_file path ≡ some bytes
    pub uploaded : client.upload bytes ((media_strategy client.lib (media_ext path)).0) ≡ some up
    pub built :
        build_media_message client
          ((media_strategy client.lib (media_ext path)).0)
          ((media_strategy client.lib (media_ext path)).1)
          caption
          path
          bytes
          up
        ≡ ok out

  module _ (jid : WaJid) (Is : Outgoing → Type 0) (box : Outbox) where
    abbrev Sent : SendAnswer → Type 0
    Sent = SentIf (ok jid) Is box

    send_message-Sent : (out : Outgoing) → Is out → Sent (send_message client jid out box)
    send_message-Sent out is = delivered-Sent (client.delivers jid out)
      where
        delivered-Sent : (d : Delivery) → Sent (delivered d jid out box)
        delivered-Sent answered = (jid, out, refl, is, refl)
        delivered-Sent not_sent = inl refl
        delivered-Sent answer_lost = inr (jid, out, refl, is, refl)

    send_built-Sent :
        (built : Result WaSendError Outgoing)
        → ((out : Outgoing) → built ≡ ok out → Is out)
        → Sent (send_built client jid built box)
    send_built-Sent (err e) is = none-SentUnless (ok jid) Is box e
    send_built-Sent (ok out) is = send_message-Sent out (is out refl)

  pub send_text-SentIf :
      (to : Jid) (body : Text) (box : Outbox)
      → SentIf
          (recipient client to)
          (λ out. out ≡ text_message body)
          box
          (send_text client to body box)
  unfolding send_text
  send_text-SentIf to body box = by_recipient (recipient client to)
    where
      by_recipient :
          (jid : Result WaSendError WaJid)
          → SentIf jid (λ out. out ≡ text_message body) box (text_to client jid body box)
      by_recipient (err e) = none-SentUnless (err e) (λ out. out ≡ text_message body) box e
      by_recipient (ok jid) =
          by_arms (SentIf (ok jid) (λ out. out ≡ text_message body) box) (not client.connected)
            (box, some offline) (send_message client jid (text_message body) box) (λ _. refl)
            (λ _.
              send_message-Sent jid (λ out. out ≡ text_message body) box (text_message body) refl)

  module _ (path caption : Text) (jid : WaJid) (box : Outbox) where
    abbrev strategy : MediaType × Text
    strategy = media_strategy client.lib (media_ext path)

    abbrev SentMedia : SendAnswer → Type 0
    SentMedia = SentIf (ok jid) (IsMediaMessage path caption) box

    send_uploaded-Sent :
        (bytes : List ℕ) (up : Option Upload)
        → client.read_file path ≡ some bytes
        → client.upload bytes (strategy.0) ≡ up
        → SentMedia (send_uploaded client jid strategy path caption bytes up box)
    send_uploaded-Sent bytes none read uploaded = refl
    send_uploaded-Sent bytes (some up) read uploaded =
        send_built-Sent jid (IsMediaMessage path caption) box
          (build_media_message client (strategy.0) (strategy.1) caption path bytes up)
          (λ out built. record {
            bytes = bytes;
            up = up;
            read = read;
            uploaded = uploaded;
            built = built;
          })

    send_file-Sent :
        (bytes : Option (List ℕ))
        → client.read_file path ≡ bytes
        → SentMedia (send_file client jid strategy path caption bytes box)
    send_file-Sent none read = refl
    send_file-Sent (some bytes) read = send_uploaded-Sent bytes _ read refl

  pub send_media-SentIf :
      (to : Jid) (path caption : Text) (box : Outbox)
      → SentIf
          (recipient client to)
          (IsMediaMessage path caption)
          box
          (send_media client to path caption box)
  unfolding send_media
  send_media-SentIf to path caption box = by_recipient (recipient client to)
    where
      by_recipient :
          (jid : Result WaSendError WaJid)
          → SentIf jid (IsMediaMessage path caption) box (media_to client jid path caption box)
      by_recipient (err e) = none-SentUnless (err e) (IsMediaMessage path caption) box e
      by_recipient (ok jid) =
          by_arms (SentMedia path caption jid box) (not client.connected) (box, some offline)
            (send_file client jid (strategy path caption jid box) path caption
              (client.read_file path) box)
            (λ _. refl) (λ _. send_file-Sent path caption jid box _ refl)
