-- ===== src/Bridge/Unwrap/Laws.antt =====
-- What `unwrapMessage` reaches: the message under at most five containers.
use whatsmcp.Base.{ℕ, zero, suc, ◌≡◌, refl, ◌≤◌, arith}
use whatsmcp.Bridge.Proto.{Message, nil, inner}
use whatsmcp.Bridge.Unwrap.{next, unwrap_rounds, unwrap_message}

-- `outer` holds `core`, which is in no container, under `n` containers.
pub data Wraps (core : Message) : ℕ → Message → Type 0 where
  bare : next core ≡ nil → Wraps core zero core
  layer :
      {n : ℕ} {outer within : Message}
      → next outer ≡ inner within
      → Wraps core n within
      → Wraps core (suc n) outer

unwrap_rounds_bare : (k : ℕ) (m : Message) → next m ≡ nil → unwrap_rounds k m ≡ m
unfolding unwrap_rounds
unwrap_rounds_bare zero m h = refl
unwrap_rounds_bare (suc k) m h = rw (h, unwrap_rounds)

unwrap_rounds-Wraps :
    {core : Message} {n : ℕ} {outer : Message} (k : ℕ)
    → Wraps core n outer
    → n ≤ k
    → unwrap_rounds k outer ≡ core
unfolding unwrap_rounds
unwrap_rounds-Wraps k (bare h) le = unwrap_rounds_bare k _ h
unwrap_rounds-Wraps zero (layer h w) le = absurd (omega arith)
unwrap_rounds-Wraps (suc k) (layer h w) le =
    rw (h, unwrap_rounds) (unwrap_rounds-Wraps k w (omega arith))

-- A message under at most five containers is reached, whichever containers these are.
pub unwrap_message-Wraps :
    (core outer : Message) (n : ℕ)
    → Wraps core n outer
    → n ≤ 5
    → unwrap_message (inner outer) ≡ inner core
unfolding unwrap_message
unwrap_message-Wraps core outer n w le = rw (unwrap_rounds-Wraps 5 w le)

pub core_bare : {core outer : Message} {n : ℕ} → Wraps core n outer → next core ≡ nil
core_bare (bare h) = h
core_bare (layer h w) = core_bare w

-- So unwrapping again, as the callees of `extractTextContent` do, changes nothing.
pub unwrap_message_idem :
    (core outer : Message) (n : ℕ)
    → Wraps core n outer
    → n ≤ 5
    → unwrap_message (unwrap_message (inner outer)) ≡ unwrap_message (inner outer)
unwrap_message_idem core outer n w le =
    rw (unwrap_message-Wraps core outer n w le)
      (unwrap_message-Wraps core core 0 (bare (core_bare w)) (omega arith))
