-- ===== src/Bridge/Connection/Laws.antt =====
-- When the bridge tries to reconnect.
use whatsmcp.Base.{ℕ, ◌≤◌, ◌≡◌, refl, Bool, not, ◌&&◌, List, [], ◌∷◌, All, arith, map}
use whatsmcp.Bridge.Connection.{Wake, longer, reconnect_round, reconnect_from, reconnect_loop}

-- The bridge is off line at that round.
abbrev pub is_offline : Wake → Bool
is_offline w = w.client && w.logged_in && not w.connected

abbrev pub InBounds : ℕ × Bool → Type 0
InBounds (wait, tries) = (30 ≤ wait) × (wait ≤ 300)

abbrev pub tried : ℕ × Bool → Bool
tried (wait, tries) = tries

reconnect_round_lem :
    (wait : ℕ) (w : Wake)
    → 30 ≤ wait
    → wait ≤ 300
    → let (tries, later) = reconnect_round wait w in
      (30 ≤ later) × (later ≤ 300) × (tries ≡ is_offline w)
unfolding reconnect_round longer
reconnect_round_lem wait w lo hi = ground arith

reconnect_from_lem :
    (wait : ℕ) (ws : List Wake)
    → 30 ≤ wait
    → wait ≤ 300
    → All InBounds (reconnect_from wait ws)
      × (map tried (reconnect_from wait ws) ≡ map is_offline ws)
unfolding reconnect_from
reconnect_from_lem wait [] lo hi = (tt, refl)
reconnect_from_lem wait (w ∷ ws) lo hi =
    let (lo', hi', same) = reconnect_round_lem wait w lo hi in
    let (bounds, tries) = reconnect_from_lem ((reconnect_round wait w).1) ws lo' hi' in
    (((lo, hi), bounds), rw (same, tries) refl)

-- The loop waits half a minute to five minutes before it looks at the connection again, and tries to
-- connect in exactly the rounds in which a client that is logged in is off line.
pub reconnect_loop_lem :
    (ws : List Wake)
    → All InBounds (reconnect_loop ws) × (map tried (reconnect_loop ws) ≡ map is_offline ws)
unfolding reconnect_loop
reconnect_loop_lem ws = reconnect_from_lem 30 ws (omega arith) (omega arith)
