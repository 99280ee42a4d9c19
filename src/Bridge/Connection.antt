-- ===== src/Bridge/Connection.antt =====
-- Connecting in whatsapp-bridge/main.go: the tray's entry point, and the loop that reconnects. Times
-- are seconds.
pub mod Laws
pub mod Exclusive
use whatsmcp.Base.{
  ℕ, ◌+◌, ◌*◌, Bool, true, false, not, ◌&&◌, ◌||◌, List, [], ◌∷◌, ltb, if◌then◌else◌,
}

-- `client` is `globalClient != nil`, `logged_in` is `Store.ID != nil`.
pub record Bridge : Type 0 where
  pub client : Bool
  pub logged_in : Bool
  pub connected : Bool
  pub qr_active : Bool

-- What `triggerConnect` goes on to do once the mutex is free.
pub data Action : Type 0 where
  still_starting : Action
  already_connected : Action
  reconnect : Action
  show_pairing : Action
  start_pairing : Action

unfoldable pub trigger_connect : Bridge → Bridge × Action
trigger_connect b =
    if not b.client
    then (b, still_starting)
    else if b.logged_in && b.connected
    then (b, already_connected)
    else if b.logged_in
    then (b, reconnect)
    else if b.qr_active
    then (b, show_pairing)
    else (record b { qr_active = true }, start_pairing)

-- The end of a pairing, under the mutex.
unfoldable pub end_pairing : Bridge → Bridge
end_pairing b = record b { qr_active = false }

-- What a round of `reconnectLoop` sees behind its sleep; `succeeds` is the result of `Connect`.
pub record Wake : Type 0 where
  pub client : Bool
  pub logged_in : Bool
  pub connected : Bool
  pub succeeds : Bool

abbrev pub wait_min : ℕ
wait_min = 30

abbrev pub wait_max : ℕ
wait_max = 300

unfoldable pub longer : ℕ → ℕ
longer wait =
    if ltb wait wait_max then (if ltb wait_max (wait * 2) then wait_max else wait * 2) else wait

-- A round: whether it tries to connect, and the wait before the next.
unfoldable pub reconnect_round : ℕ → Wake → Bool × ℕ
unfolding longer
reconnect_round wait w =
    if not w.client || not w.logged_in || w.connected
    then (false, wait_min)
    else if not w.succeeds
    then (true, longer wait)
    else (true, wait_min)

-- The loop never ends: for each round, the wait before it and whether it tried.
unfoldable pub reconnect_from : ℕ → List Wake → List (ℕ × Bool)
unfolding reconnect_round
reconnect_from wait [] = []
reconnect_from wait (w ∷ ws) =
    let (tries, later) = reconnect_round wait w in (wait, tries) ∷ reconnect_from later ws

unfoldable pub reconnect_loop : List Wake → List (ℕ × Bool)
unfolding reconnect_from
reconnect_loop = reconnect_from wait_min
