-- ===== src/Bridge/Connection/Exclusive.antt =====
-- The pairings of whatsapp-bridge, which `triggerConnect` starts in goroutines of their own.
use whatsmcp.Base.{ℕ, zero, suc, ◌+◌, ◌≡◌, ◌≤◌, arith, Bool, false, List, [], ◌∷◌, if◌then◌else◌}
use whatsmcp.Bridge.Connection.{
  Bridge, Action, show_pairing, start_pairing, trigger_connect, end_pairing,
}

-- What happens next: a trigger, the end of a pairing that runs, or a change of the client.
pub data Move : Type 0 where
  triggered : Move
  pairing_ended : Move
  client_changed : (client logged_in connected : Bool) → Move

-- The state, and how many pairings run.
pub record Pairings : Type 0 where
  pub bridge : Bridge
  pub running : ℕ

abbrev pub started_by : Action → ℕ → ℕ
started_by start_pairing n = n + 1
started_by _ n = n

abbrev pub ended : ℕ → Bridge → Pairings
ended zero b = record { bridge = b; running = 0 }
ended (suc n) b = record { bridge = end_pairing b; running = n }

unfoldable pub move : Move → Pairings → Pairings
unfolding trigger_connect end_pairing
move triggered s =
    let (b, action) = trigger_connect s.bridge in
    record { bridge = b; running = started_by action s.running }
move pairing_ended s = ended s.running s.bridge
move (client_changed client logged_in connected) s = record s {
  bridge = record s.bridge { client = client; logged_in = logged_in; connected = connected };
}

unfoldable pub moves : List Move → Pairings → Pairings
unfolding move
moves [] s = s
moves (m ∷ ms) s = moves ms (move m s)

abbrev IsCounted : Pairings → Type 0
IsCounted s = s.running ≡ (if s.bridge.qr_active then 1 else 0)

ended-IsCounted : (n : ℕ) (b : Bridge) → n ≡ (if b.qr_active then 1 else 0) → IsCounted (ended n b)
unfolding end_pairing
ended-IsCounted zero b h = h
ended-IsCounted (suc n) b h = ground arith

move-IsCounted : (m : Move) (s : Pairings) → IsCounted s → IsCounted (move m s)
unfolding move trigger_connect
move-IsCounted triggered s h = ground arith
move-IsCounted pairing_ended s h = ended-IsCounted s.running s.bridge h
move-IsCounted (client_changed client logged_in connected) s h = h

moves-IsCounted : (ms : List Move) (s : Pairings) → IsCounted s → IsCounted (moves ms s)
unfolding moves
moves-IsCounted [] s h = h
moves-IsCounted (m ∷ ms) s h = moves-IsCounted ms (move m s) (move-IsCounted m s h)

-- A pairing is started where none runs, and its image is shown where one does.
abbrev pub Fits : Action → ℕ → Type 0
Fits start_pairing n = n ≡ 0
Fits show_pairing n = n ≡ 1
Fits _ n = Unit

trigger_connect-Fits : (s : Pairings) → IsCounted s → Fits (trigger_connect s.bridge).1 s.running
unfolding trigger_connect
trigger_connect-Fits s h = ground arith

-- Through any triggers, ends of pairings and changes of the client, from a start with none, at most one
-- pairing runs; and the next trigger starts one only where none runs, and shows the image of a pairing
-- only where one does.
pub moves-exclusive :
    (ms : List Move) (s : Pairings)
    → s.bridge.qr_active ≡ false
    → s.running ≡ 0
    → let t = moves ms s in (t.running ≤ 1) × Fits (trigger_connect t.bridge).1 t.running
moves-exclusive ms s quiet none_runs =
    let counted = moves-IsCounted ms s (ground arith) in
    (ground arith, trigger_connect-Fits (moves ms s) counted)
