-- ===== src/Wabridge/Tray/Heals.antt =====
-- What the tray does to the session.
use whatsmcp.Base.{◌≡◌, ◌≤◌, refl, arith, Bool, true, false, not, ◌&&◌, Text, if◌then◌else◌}
use whatsmcp.Wabridge.Session.{Session, connect, status, Reach, here, next, call, fresh}
use whatsmcp.Wabridge.Session.Exclusive.{IsGuarded, Reach-IsGuarded}
use whatsmcp.Wabridge.Tray.{refresh_status, run_connect}

-- The goroutine is a step of the session, or none.
run_connect-Reach :
    (started : Bool) (s : Session) → Reach fresh s → Reach fresh (run_connect started s)
unfolding run_connect
run_connect-Reach true s r = next r (call refl)
run_connect-Reach false s r = r

Reach-trans : {s t u : Session} → Reach s t → Reach t u → Reach s u
Reach-trans r here = r
Reach-trans r (next q st) = next (Reach-trans r q) st

-- Behind `Connect`, a session that is off line has one loop, and one that is logged out has a pairing.
abbrev pub IsTended : Session → Type 0
IsTended u =
    (u.loops ≤ 1)
    × (u.pairings ≤ 1)
    × ((if u.logged_in && not u.connected then u.loops else 1) ≡ 1)
    × ((if u.logged_in then 1 else u.pairings) ≡ 1)

connect-IsTended : (t : Session) → IsGuarded t → IsTended (connect t)
unfolding connect
connect-IsTended t (l, p) = ground arith

-- What the goroutine of a round leaves: a session that is tended, or no change.
abbrev pub Heals : Bool → Session → Session → Type 0
Heals true t u = IsTended u
Heals false t u = u ≡ t

run_connect-Heals :
    (started : Bool) (t : Session) → IsGuarded t → Heals started t (run_connect started t)
unfolding run_connect
run_connect-Heals true t h = connect-IsTended t h
run_connect-Heals false t h = refl

refresh_status-asks :
    (s : Session) (account : Text)
    → (refresh_status true account s).0 ≡ (s.logged_in && not s.connected)
unfolding refresh_status status
refresh_status-asks s account = ground arith

-- In a state that the program reaches, a round of the status loop starts the goroutine of Connect exactly
-- where it finds the session off line. Whatever happens before it is scheduled, it leaves a session that
-- is off line with exactly one loop that reconnects and one that is logged out with exactly one pairing,
-- and never more than one of either; where it is not started, nothing changes.
pub refresh_status-Heals :
    (account : Text) (s t : Session)
    → Reach fresh s
    → Reach s t
    → let started = (refresh_status true account s).0 in
      (started ≡ (s.logged_in && not s.connected))
      × Heals started t (run_connect started t)
      × Reach fresh (run_connect started t)
refresh_status-Heals account s t r meanwhile =
    let started = (refresh_status true account s).0 in
    let reached = Reach-trans r meanwhile in
    (
      refresh_status-asks s account,
      run_connect-Heals started t (Reach-IsGuarded reached (refl, refl)),
      run_connect-Reach started t reached,
    )
