-- ===== src/Wabridge/Rest/Laws.antt =====
-- What a request to send puts out, and what its answer says of it.
use whatsmcp.Base.{◌≡◌, ◌⊎◌, Bool, true, false, Option, some, [], ◌∷◌, ◌++◌, ok, is_empty}
use whatsmcp.Domain.Jid.{Jid, parse_recipient}
use whatsmcp.Bridge.Events.{WaJid}
use whatsmcp.Bridge.Rest.{SendMessageRequest}
use whatsmcp.Bridge.Send.{Outgoing, text_message}
use whatsmcp.Wabridge.Send.{not_accepted, recipient}
use whatsmcp.Wabridge.Send.Exact.{IsMediaMessage}
use whatsmcp.Wabridge.Rest.{sent_to, send_failed, WaResponse, json_body, World, WaServer}

module _ {D : Type 0} (server : WaServer D) where
  -- The text that was asked for, or the file with the text as its caption.
  abbrev pub IsAskedAs : (no_file : Bool) → SendMessageRequest → Outgoing → Type 0
  IsAskedAs true req out = out ≡ text_message req.message
  IsAskedAs false req out = IsMediaMessage server.sender req.media_path req.message out

  abbrev pub IsAsked : SendMessageRequest → Outgoing → Type 0
  IsAsked req = IsAskedAs (is_empty req.media_path) req

  -- One message left, to the JID that the request's recipient stands for.
  abbrev pub Delivers : SendMessageRequest → World D → World D → Type 0
  Delivers req w next =
      (to : Jid) × (jid : WaJid) × (out : Outgoing) × (parse_recipient req.recipient ≡ ok to)
      × (recipient server.sender to ≡ ok jid)
      × IsAsked req out
      × (next ≡ record w { outbox = w.outbox ++ (jid, out) ∷ [] })

  -- A message left where the response confirms it. Where SendMessage returned an error, it left or
  -- nothing changed. Else nothing changed.
  abbrev pub ConfirmsExactly : Option SendMessageRequest → World D → World D → WaResponse → Type 0
  ConfirmsExactly body w next (json_body code (sent_to name)) =
      (req : SendMessageRequest) × (body ≡ some req)
      × (name ≡ req.recipient)
      × (code ≡ 200)
      × Delivers req w next
  ConfirmsExactly body w next (json_body code (send_failed not_accepted)) =
      (next ≡ w) ⊎ ((req : SendMessageRequest) × (body ≡ some req) × Delivers req w next)
  ConfirmsExactly body w next _ = next ≡ w

  module _ (req : SendMessageRequest) (w : World D) where
    abbrev Confirms : World D × WaResponse → Type 0
    Confirms r = ConfirmsExactly (some req) w (r.0) (r.1)
