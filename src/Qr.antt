-- ===== src/Qr.antt =====
-- What the QR pairings of both programs work with: the channel of the client, the files, and the
-- viewer of images.
use whatsmcp.Base.{Bool, Option, List, ◌∷◌, [], ◌++◌, Text, text_eq, if◌then◌else◌, ℕ, none}

-- What `os.WriteFile` does: it writes all, or fails and leaves something at the path.
pub data FileWrite : Type 0 where
  written : FileWrite
  not_written : (leaves : Option (List ℕ)) → FileWrite

-- An item of the channel, with what the file system does in its branch; `other_item` is any other
-- event, which no branch knows.
pub data QrItem : Type 0 where
  code_item : (code : Text) → FileWrite → QrItem
  success_item : (removes : Bool) → QrItem
  timeout_item : QrItem
  error_item : QrItem
  other_item : QrItem

-- How a pairing ends; `paired` says whether the image was removed.
pub data PairingEnd : Type 0 where
  paired : (removed : Bool) → PairingEnd
  expired : PairingEnd
  pairing_failed : PairingEnd
  channel_closed : PairingEnd
  no_channel : PairingEnd
  not_connected : PairingEnd

-- The files, and what the viewer was opened on so far: the path, and what was there.
pub record Desk : Type 0 where
  pub files : Text → Option (List ℕ)
  pub viewed : List (Text × Option (List ℕ))

unfoldable pub set_file : Text → Option (List ℕ) → Desk → Desk
unfolding text_eq
set_file path content d = record d { files = λ p. if text_eq p path then content else d.files p }

-- The default program of the system opens a path.
unfoldable pub open_viewer : Text → Desk → Desk
open_viewer path d = record d { viewed = d.viewed ++ (path, d.files path) ∷ [] }

-- `os.Remove`, whose error is passed over.
unfoldable pub remove_file : Bool → Text → Desk → Desk
unfolding set_file
remove_file removes path d = if removes then set_file path none d else d
