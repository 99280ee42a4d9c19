-- ===== src/Bridge/Content/Laws.antt =====
-- What the stored text holds, in or out of containers.
use whatsmcp.Base.{ℕ, ◌≤◌, ◌≡◌, refl, arith}
use whatsmcp.Bridge.Std.{Std}
use whatsmcp.Bridge.Proto.{Message, body, inner}
use whatsmcp.Bridge.Unwrap.{unwrap_message}
use whatsmcp.Bridge.Unwrap.Laws.{Wraps, bare, core_bare, unwrap_message-Wraps}
use whatsmcp.Bridge.Content.{extract_text_content, extract_quoted, body_text, text_of}

-- Five containers or fewer hide nothing: the text and the quotation are those of the message inside.
pub extract_text_content-Wraps :
    (lib : Std) (core outer : Message) (n : ℕ)
    → Wraps core n outer
    → n ≤ 5
    → (extract_text_content lib (inner outer) ≡ body_text lib (inner core) (body core))
      × (extract_quoted lib (inner outer) ≡ extract_quoted lib (inner core))
unfolding extract_text_content extract_quoted text_of
extract_text_content-Wraps lib core outer n w le =
    let out : unwrap_message (inner outer) ≡ inner core = unwrap_message-Wraps core outer n w le in
    let here : unwrap_message (inner core) ≡ inner core =
      unwrap_message-Wraps core core 0 (bare (core_bare w)) (omega arith) in
    (rw out refl, rw (out, here) refl)
