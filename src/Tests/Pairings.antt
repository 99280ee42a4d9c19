-- ===== src/Tests/Pairings.antt =====
-- Runs of the pairings of both programs, of the trays, and of the connection status.
use whatsmcp.Base.{
  ◌≤◌, ℕ, ◌≡◌, ◌++◌, not, ◌&&◌, refl, true, false, Option, none, some, List, [], ◌∷◌, Text, codes,
  text_eq, if◌then◌else◌,
}
use whatsmcp.Sql.{next_fault}
use whatsmcp.Qr.{written, not_written, QrItem, code_item, success_item, other_item, Desk}
use whatsmcp.Bridge.Connection.{trigger_connect}
use whatsmcp.Bridge.Connection.Exclusive.{
  Move, triggered, pairing_ended, Pairings, moves, Fits, moves-exclusive,
}
use whatsmcp.Bridge.Mcp.Status.{lookup_result, connection_status}
use whatsmcp.Bridge.Mcp.Status.Newest.{IsNewest, connection_status-IsNewest}
use whatsmcp.Bridge.Pairing.{Machine, do_qr_pair}
use whatsmcp.Bridge.Pairing.Copied.{find_copy, kept_or, do_qr_pair-Copies}
use whatsmcp.Wabridge.Bus.{add_handler, handlers_of}
use whatsmcp.Wabridge.Features.{Event, event_name}
use whatsmcp.Wabridge.Pairing.{DeskBus, on_qr_code, new_tray, pair_with_qr}
use whatsmcp.Wabridge.Pairing.Once.{view_of, first_image, Removed, pair_with_qr-ShowsOnce}
use whatsmcp.Wabridge.Pairing.Agree.{do_qr_pair-pair_with_qr}
use whatsmcp.Wabridge.Session.{Session, Reach, here, fresh, next, world}
use whatsmcp.Wabridge.Tray.{refresh_status, run_connect}
use whatsmcp.Wabridge.Tray.Heals.{Heals, refresh_status-Heals}
use whatsmcp.Tests.{db_one}
use whatsmcp.Tests.Reads.{some_engine}

abbrev qr_png : Text
qr_png = codes "qr.png"

abbrev encode : Text → Option (List ℕ)
encode code = some code

-- A code that is not written, two that are, and the scan.
abbrev items : List QrItem
items =
    code_item (codes "a") (not_written none)
    ∷ code_item (codes "b") written
    ∷ other_item
    ∷ code_item (codes "c") written
    ∷ success_item true
    ∷ []

abbrev desk : Desk
desk = record { files = λ p. some (codes "log"); viewed = [] }

abbrev tray_bus : DeskBus
tray_bus = add_handler Event Desk event_name (codes "session.qr_ready") on_qr_code []

tray_made : new_tray true true true [] ≡ some tray_bus
unfolding new_tray
tray_made = refl

no_listener : handlers_of Event Desk event_name (codes "session.qr_ready") [] ≡ []
unfolding handlers_of
no_listener = refl

other_file : text_eq (codes "bridge.log") qr_png ≡ false
unfolding text_eq
other_file = refl

pair_with_qr-ShowsOnce_example :
    let (after, end) = pair_with_qr encode qr_png tray_bus true true items desk in
    (after.viewed ≡ [] ++ view_of qr_png (if true && true then first_image encode items else none))
    × (after.files (codes "bridge.log") ≡ some (codes "log"))
    × Removed qr_png after end
pair_with_qr-ShowsOnce_example =
    pair_with_qr-ShowsOnce encode qr_png [] tray_bus true true items desk (codes "bridge.log")
      tray_made no_listener other_file

abbrev machine : Machine
machine = record { db = db_one; copies = []; desk = desk }

do_qr_pair-Copies_example :
    let after = (do_qr_pair encode qr_png true true true (codes "1200") items machine).0 in
    (after.db.tables ≡ db_one.tables)
    × (find_copy (codes "1200") after.copies
        ≡ kept_or (find_copy (codes "1200") machine.copies) (
            if text_eq (codes "1200") (codes "1200") && not (next_fault db_one.faults)
            then some (codes "1200", db_one.tables)
            else none))
do_qr_pair-Copies_example =
    do_qr_pair-Copies encode qr_png true true (codes "1200") (codes "1200") items machine

do_qr_pair-pair_with_qr_example :
    let (after, end) = do_qr_pair encode qr_png true true true (codes "1200") items machine in
    (after.desk, end) ≡ pair_with_qr encode qr_png tray_bus true true items desk
do_qr_pair-pair_with_qr_example =
    do_qr_pair-pair_with_qr encode qr_png [] tray_bus true true true (codes "1200") items machine
      tray_made no_listener

-- A session that dropped.
abbrev dropped : Session
dropped = record fresh { logged_in = true; connected = false }

-- Logged out before the goroutine of the round runs.
abbrev logged_out : Session
logged_out = record dropped { logged_in = false; connected = false }

refresh_status-Heals_example :
    let started = (refresh_status true (codes "me") dropped).0 in
    (started ≡ (dropped.logged_in && not dropped.connected))
    × Heals started logged_out (run_connect started logged_out)
    × Reach fresh (run_connect started logged_out)
refresh_status-Heals_example =
    refresh_status-Heals (codes "me") dropped logged_out (next here (world true false refl))
      (next here (world false false refl))

connection_status-IsNewest_example :
    let (after, status) =
      connection_status some_engine
        (some (codes "me"))
        (lookup_result (true ∷ []) 12)
        true
        db_one in
    IsNewest some_engine status.last_message_stored db_one.tables.messages
    × (after.tables ≡ db_one.tables)
connection_status-IsNewest_example =
    connection_status-IsNewest some_engine (some (codes "me")) (lookup_result (true ∷ []) 12) db_one
      refl

-- Two triggers on a client that is logged out, and the end of the pairing.
abbrev started : Pairings
started = record {
  bridge = record { client = true; logged_in = false; connected = false; qr_active = false };
  running = 0;
}

abbrev some_moves : List Move
some_moves = triggered ∷ triggered ∷ pairing_ended ∷ triggered ∷ []

moves-exclusive_example :
    let t = moves some_moves started in
    (t.running ≤ 1) × Fits (trigger_connect t.bridge).1 t.running
moves-exclusive_example = moves-exclusive some_moves started refl refl
