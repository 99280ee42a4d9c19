-- ===== src/Wabridge/Pairing.antt =====
-- The QR pairing of platform/wa/qr.go on the event bus, with the handler of delivery/tray/tray.go that
-- opens the image.
pub mod Once
pub mod Agree
use whatsmcp.Base.{
  ℕ, Bool, true, false, not, ◌||◌, Option, none, some, List, [], ◌∷◌, Text, codes, if◌then◌else◌,
}
use whatsmcp.Qr.{
  FileWrite, written, not_written, QrItem, code_item, success_item, timeout_item, error_item,
  other_item, PairingEnd, paired, expired, pairing_failed, channel_closed, no_channel,
  not_connected, Desk, set_file, open_viewer, remove_file,
}
use whatsmcp.Wabridge.Bus.{Handler, Bus, subscribe, publish}
use whatsmcp.Wabridge.Features.{Event, event_name, qr_code_ready}

-- The bus, as far as its handlers work on the desk.
abbrev pub DeskBus : Type 0
DeskBus = Bus Event Desk event_name

unfoldable pub on_qr_code : Handler Event Desk event_name
unfolding open_viewer
on_qr_code (qr_code_ready path) d = (open_viewer path d, true)
on_qr_code _ d = (d, true)

-- `tray.New`: the flags say whether the session, the bus and the log are there; `none` is the panic.
unfoldable pub new_tray : (session bus log : Bool) → DeskBus → Option DeskBus
unfolding subscribe on_qr_code
new_tray session bus log on_bus =
    if not session || not bus || not log
    then none
    else subscribe Event Desk event_name (codes "session.qr_ready") on_qr_code on_bus

module _ (qr_path : Text) (bus : DeskBus) where
  unfoldable pub announce : Bool → Desk → Desk
  unfolding publish
  announce published d =
      if published then d else (publish Event Desk event_name bus (qr_code_ready qr_path) d).0

  -- The branch of a code: whether one is published now.
  unfoldable pub show_code : Bool → Option (List ℕ) → FileWrite → Desk → Bool × Desk
  unfolding announce set_file
  show_code published none w d = (published, d)
  show_code published (some png) written d =
      (true, announce published (set_file qr_path (some png) d))
  show_code published (some png) (not_written leaves) d = (published, set_file qr_path leaves d)

-- `encode` is `qr.Encode` with the PNG of the code.
module _ (encode : Text → Option (List ℕ)) (qr_path : Text) (bus : DeskBus) where
  unfoldable pub pair_from : Bool → List QrItem → Desk → Desk × PairingEnd
  unfolding show_code remove_file
  pair_from published [] d = (d, channel_closed)
  pair_from published (code_item code w ∷ items) d =
      let (now, shown) = show_code qr_path bus published (encode code) w d in
      pair_from now items shown
  pair_from published (success_item removes ∷ items) d =
      (remove_file removes qr_path d, paired removes)
  pair_from published (timeout_item ∷ items) d = (d, expired)
  pair_from published (error_item ∷ items) d = (d, pairing_failed)
  pair_from published (other_item ∷ items) d = pair_from published items d

  -- `gets` and `connects`: the client has a channel, and connects.
  unfoldable pub pair_with_qr : (gets connects : Bool) → List QrItem → Desk → Desk × PairingEnd
  unfolding pair_from
  pair_with_qr gets connects items d =
      if not gets
      then (d, no_channel)
      else if not connects
      then (d, not_connected)
      else pair_from false items d
