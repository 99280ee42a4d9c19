-- ===== src/Bridge/Pairing.antt =====
-- `doQRPair` of whatsapp-bridge/main.go: the copy of the store, and the pairing. What it prints on the
-- terminal, the code itself included, is left out, and so is the status line.
pub mod Copied
use whatsmcp.Base.{
  ℕ, Bool, true, false, not, Option, none, some, List, [], ◌∷◌, Text, if◌then◌else◌, text_key,
}
use whatsmcp.Sql.{Db, query, insert}
use whatsmcp.Qr.{
  FileWrite, written, not_written, QrItem, code_item, success_item, timeout_item, error_item,
  other_item, PairingEnd, paired, expired, pairing_failed, channel_closed, no_channel,
  not_connected, Desk, set_file, open_viewer, remove_file,
}
use whatsmcp.Bridge.Store.{Tables}

-- A copy in the folder `store/_copias`, under the minute in its name.
abbrev pub Copy : Type 0
Copy = Text × Tables

abbrev pub copy_key : Copy → Text
copy_key (minute, t) = minute

-- The store with its copies, and the desk.
pub record Machine : Type 0 where
  pub db : Db Tables
  pub copies : List Copy
  pub desk : Desk

abbrev pub or_old : List Copy → Option (List Copy) → List Copy
or_old old none = old
or_old old (some new) = new

abbrev pub copied_to : Text → List Copy → Option Tables → List Copy
copied_to minute copies none = copies
copied_to minute copies (some t) = or_old copies (insert copy_key (minute, t) copies)

-- `VACUUM INTO`, which fails where the file is there; the error is only printed.
unfoldable pub copy_store : Text → Machine → Machine
unfolding query insert
copy_store minute m =
    let (asked, read) = query (λ t. t) m.db in
    record m { db = asked; copies = copied_to minute m.copies read }

-- `qr.png`, in the folder that the bridge runs in.
module _ (qr_png : Text) where
  unfoldable pub write_code : Bool → Option (List ℕ) → FileWrite → Desk → Bool × Desk
  unfolding set_file open_viewer
  write_code opened none w d = (opened, d)
  write_code opened (some png) (not_written leaves) d = (opened, set_file qr_png leaves d)
  write_code opened (some png) written d =
      if opened
      then (opened, set_file qr_png (some png) d)
      else (true, open_viewer qr_png (set_file qr_png (some png) d))

module _ (encode : Text → Option (List ℕ)) (qr_png : Text) where
  unfoldable pub read_channel : Bool → List QrItem → Desk → Desk × PairingEnd
  unfolding write_code remove_file
  read_channel opened [] d = (d, channel_closed)
  read_channel opened (code_item code w ∷ items) d =
      let (now, shown) = write_code qr_png opened (encode code) w d in read_channel now items shown
  read_channel opened (success_item removes ∷ items) d =
      (remove_file removes qr_png d, paired removes)
  read_channel opened (timeout_item ∷ items) d = (d, expired)
  read_channel opened (error_item ∷ items) d = (d, pairing_failed)
  read_channel opened (other_item ∷ items) d = read_channel opened items d

  abbrev pub pair_on : (gets connects : Bool) → List QrItem → Machine → Machine × PairingEnd
  pair_on gets connects items m =
      let (desk, end) = read_channel false items m.desk in
      if not gets
      then (m, no_channel)
      else if not connects
      then (m, not_connected)
      else (record m { desk = desk }, end)

  -- `store_open`: the store is there.
  unfoldable pub do_qr_pair :
      (store_open gets connects : Bool)
      → (minute : Text) → List QrItem
      → Machine
      → Machine × PairingEnd
  unfolding copy_store read_channel
  do_qr_pair store_open gets connects minute items m =
      pair_on gets connects items (if store_open then copy_store minute m else m)
