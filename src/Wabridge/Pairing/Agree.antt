-- ===== src/Wabridge/Pairing/Agree.antt =====
-- The pairings of the two programs beside each other.
use whatsmcp.Base.{
  ℕ, ◌≡◌, refl, sym, ap, ◌∙◌, Bool, true, false, Option, none, some, List, [], ◌∷◌, Text, codes,
}
use whatsmcp.Qr.{
  FileWrite, written, not_written, QrItem, code_item, success_item, timeout_item, error_item,
  other_item, Desk, set_file, open_viewer,
}
use whatsmcp.Bridge.Pairing.{Machine, copy_store, write_code, read_channel, do_qr_pair}
use whatsmcp.Wabridge.Bus.{handlers_of, publish}
use whatsmcp.Wabridge.Features.{Event, event_name, qr_code_ready}
use whatsmcp.Wabridge.Pairing.{DeskBus, new_tray, show_code, pair_from, pair_with_qr}
use whatsmcp.Wabridge.Pairing.Once.{new_tray-publish}

module _ (encode : Text → Option (List ℕ)) (path : Text) (bus : DeskBus)
    (opens : (d : Desk)
      → (publish Event Desk event_name bus (qr_code_ready path) d).0 ≡ open_viewer path d) where
  write_code-eq :
      (opened : Bool) (o : Option (List ℕ)) (w : FileWrite) (d : Desk)
      → write_code path opened o w d ≡ show_code path bus opened o w d
  unfolding write_code show_code
  write_code-eq opened none w d = refl
  write_code-eq opened (some png) (not_written leaves) d = refl
  write_code-eq true (some png) written d = refl
  write_code-eq false (some png) written d =
      ap (λ e. (true, e)) (sym (opens (set_file path (some png) d)))

  read_channel-eq :
      (opened : Bool) (items : List QrItem) (d : Desk)
      → read_channel encode path opened items d ≡ pair_from encode path bus opened items d
  unfolding read_channel pair_from
  read_channel-eq opened [] d = refl
  read_channel-eq opened (code_item code w ∷ items) d =
      let (now, shown) = write_code path opened (encode code) w d in
      read_channel-eq now items shown
      ∙ ap (λ r. pair_from encode path bus (r.0) items (r.1))
          (write_code-eq opened (encode code) w d)
  read_channel-eq opened (success_item removes ∷ items) d = refl
  read_channel-eq opened (timeout_item ∷ items) d = refl
  read_channel-eq opened (error_item ∷ items) d = refl
  read_channel-eq opened (other_item ∷ items) d = read_channel-eq opened items d

-- Both programs end a pairing in the same way, with the same files and the same openings of the
-- viewer, given the same channel and file system; of wabridge, through its bus and the tray on it.
pub do_qr_pair-pair_with_qr :
    (encode : Text → Option (List ℕ)) (path : Text) (b bus : DeskBus)
    (store_open gets connects : Bool) (minute : Text) (items : List QrItem) (m : Machine)
    → new_tray true true true b ≡ some bus
    → handlers_of Event Desk event_name (codes "session.qr_ready") b ≡ []
    → let (after, end) = do_qr_pair encode path store_open gets connects minute items m in
      (after.desk, end) ≡ pair_with_qr encode path bus gets connects items m.desk
unfolding do_qr_pair copy_store pair_with_qr
do_qr_pair-pair_with_qr encode path b bus true false connects minute items m made quiet = refl
do_qr_pair-pair_with_qr encode path b bus false false connects minute items m made quiet = refl
do_qr_pair-pair_with_qr encode path b bus true true false minute items m made quiet = refl
do_qr_pair-pair_with_qr encode path b bus false true false minute items m made quiet = refl
do_qr_pair-pair_with_qr encode path b bus true true true minute items m made quiet =
    read_channel-eq encode path bus (λ e. new_tray-publish b bus path e made quiet) false items
      m.desk
do_qr_pair-pair_with_qr encode path b bus false true true minute items m made quiet =
    read_channel-eq encode path bus (λ e. new_tray-publish b bus path e made quiet) false items
      m.desk
