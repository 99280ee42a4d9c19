-- ===== src/Wabridge/Session.antt =====
-- Connecting in wabridge/internal/platform/wa/session.go: the guarded entry point, the loop that
-- retries, and the status. Times are seconds.
pub mod Exclusive
pub mod Backoff
use whatsmcp.Base.{
  ℕ, ◌+◌, ◌-◌, ◌*◌, ◌≡◌, ◌≤◌, Bool, true, false, not, ◌&&◌, ◌||◌, List, [], ◌∷◌, Text, codes, ltb,
  if◌then◌else◌,
}

-- `logged_in` is `Store.ID != nil`; `loops` and `pairings` count the goroutines that were started and
-- have not ended.
pub record Session : Type 0 where
  pub logged_in : Bool
  pub connected : Bool
  pub reconnecting : Bool
  pub qr_active : Bool
  pub loops : ℕ
  pub pairings : ℕ

-- `Connect`, which runs under the mutex.
unfoldable pub connect : Session → Session
connect s =
    if s.logged_in && s.connected
    then s
    else if s.logged_in
    then (if s.reconnecting then s else record s { reconnecting = true; loops = s.loops + 1 })
    else if s.qr_active
    then s
    else record s { qr_active = true; pairings = s.pairings + 1 }

-- What may happen next: a call of `Connect`, the end of a loop or a pairing, which takes the guard
-- back under the mutex, and whatever the server does to the session.
pub data Step (s t : Session) : Type 0 where
  call : t ≡ connect s → Step s t
  loop_ends : 1 ≤ s.loops → t ≡ record s { reconnecting = false; loops = s.loops - 1 } → Step s t
  pairing_ends :
      1 ≤ s.pairings → t ≡ record s { qr_active = false; pairings = s.pairings - 1 } → Step s t
  world : (l c : Bool) → t ≡ record s { logged_in = l; connected = c } → Step s t

pub data Reach (s : Session) : Session → Type 0 where
  here : Reach s s
  next : {t u : Session} → Reach s t → Step t u → Reach s u

abbrev pub fresh : Session
fresh = record {
  logged_in = false;
  connected = false;
  reconnecting = false;
  qr_active = false;
  loops = 0;
  pairings = 0;
}

-- What one round of `connectWithRetry` sees: the session, the connection, the result of `Connect`, and
-- the connection behind it.
pub record Attempt : Type 0 where
  pub logged_in : Bool
  pub connected : Bool
  pub succeeds : Bool
  pub connected_after : Bool

abbrev pub backoff_start : ℕ
backoff_start = 5

abbrev pub backoff_max : ℕ
backoff_max = 60

unfoldable pub next_backoff : ℕ → ℕ
next_backoff b =
    if ltb b backoff_max then (if ltb backoff_max (b * 2) then backoff_max else b * 2) else b

-- The loop returned, or it goes on behind the rounds given; with the waits it slept.
pub record Retry : Type 0 where
  pub returned : Bool
  pub waits : List ℕ

-- The loop from a backoff on.
unfoldable pub retry_from : ℕ → List Attempt → Retry
unfolding next_backoff
retry_from backoff [] = record { returned = false; waits = [] }
retry_from backoff (a ∷ rounds) =
    let rest = retry_from (next_backoff backoff) rounds in
    if not a.logged_in || a.connected || a.succeeds || a.connected_after
    then record { returned = true; waits = [] }
    else record { returned = rest.returned; waits = backoff ∷ rest.waits }

unfoldable pub connect_with_retry : List Attempt → Retry
unfolding retry_from
connect_with_retry = retry_from backoff_start

pub data SessionStatus : Type 0 where
  connected_state : SessionStatus
  offline_state : SessionStatus
  logged_out_state : SessionStatus

unfoldable pub status : Session → SessionStatus
status s =
    if s.logged_in && s.connected
    then connected_state
    else if s.logged_in
    then offline_state
    else logged_out_state
