-- ===== src/Wabridge/Session/Exclusive.antt =====
-- No two connection loops and no two pairings run at once.
use whatsmcp.Base.{◌≤◌, ◌≡◌, refl, arith, if◌then◌else◌}
use whatsmcp.Wabridge.Session.{
  Session, connect, Step, call, loop_ends, pairing_ends, world, Reach, here, next, fresh,
}

-- A guard is up exactly while its goroutine runs.
abbrev pub IsGuarded : Session → Type 0
IsGuarded s =
    (s.loops ≡ (if s.reconnecting then 1 else 0)) × (s.pairings ≡ (if s.qr_active then 1 else 0))

connect-IsGuarded : (s : Session) → IsGuarded s → IsGuarded (connect s)
unfolding connect
connect-IsGuarded s (l, p) = ground arith

Step-IsGuarded : (s t : Session) → Step s t → IsGuarded s → IsGuarded t
Step-IsGuarded s t (call e) h = rw e (connect-IsGuarded s h)
Step-IsGuarded s t (loop_ends le e) (l, p) = rw e (ground arith, p)
Step-IsGuarded s t (pairing_ends le e) (l, p) = rw e (l, ground arith)
Step-IsGuarded s t (world b c e) h = rw e h

pub Reach-IsGuarded : {s t : Session} → Reach s t → IsGuarded s → IsGuarded t
Reach-IsGuarded here h = h
Reach-IsGuarded (next r st) h = Step-IsGuarded _ _ st (Reach-IsGuarded r h)

-- In every state that the program reaches, whoever calls `Connect` and whatever the server does, at
-- most one loop reconnects and at most one QR channel is open.
pub Reach-exclusive : (s : Session) → Reach fresh s → (s.loops ≤ 1) × (s.pairings ≤ 1)
Reach-exclusive s r = let (l, p) = Reach-IsGuarded r (refl, refl) in (ground arith, ground arith)
