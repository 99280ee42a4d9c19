-- ===== src/Bridge/Tray.antt =====
-- The tray of whatsapp-bridge/main.go: its status line, and the log file that it trims and shows.
pub mod Log
use whatsmcp.Base.{
  ℕ, ◌-◌, Bool, true, false, not, ◌&&◌, ◌||◌, Option, none, some, List, [], ◌∷◌, ◌++◌, Text, codes,
  length, drop, ltb, if◌then◌else◌,
}
use whatsmcp.Qr.{FileWrite, written, not_written, Desk, set_file, open_viewer}
use whatsmcp.Bridge.Connection.{Bridge}
use whatsmcp.Bridge.Instance.{tray_label}

-- The title of the status item and the tooltip; `none`: there is no item yet. `account` is the user of
-- the session, `name` what the instance is called.
unfoldable pub refresh_status :
    (has_item : Bool) → (name account : Text) → Bridge → Option (Text × Text)
unfolding tray_label
refresh_status has_item name account b =
    if not has_item
    then none
    else if b.client && b.logged_in && b.connected
    then some
        (codes "Status: CONNECTED (" ++ (account ++ codes ")"), tray_label name (codes "connected"))
    else if b.client && b.logged_in
    then some (
      codes "Status: disconnected, click Connect",
      tray_label name (codes "disconnected (session still valid)"),
    )
    else some (
      codes "Status: LOGGED OUT, click Connect to pair",
      tray_label name (codes "logged out, scan the QR to pair"),
    )

abbrev pub log_cap_bytes : ℕ
log_cap_bytes = 1048576

abbrev pub tail_bytes : ℕ
tail_bytes = 65536

abbrev pub log_path : Text
log_path = codes "bridge.log"

abbrev pub backup_path : Text
backup_path = codes "bridge.log.1"

abbrev pub tail_path : Text
tail_path = codes "bridge-tail.log"

-- `os.WriteFile`: what is at the path then, and whether it had no error.
abbrev pub write_file : Text → List ℕ → FileWrite → Desk → Desk
write_file path bytes written d = set_file path (some bytes) d
write_file path bytes (not_written leaves) d = set_file path leaves d

-- What the system does in one call of `rotateLog`: whether it examines, reads and truncates.
pub record Trim : Type 0 where
  pub stats : Bool
  pub reads : Bool
  pub writes : FileWrite
  pub truncates : Bool

-- A log at its cap is copied, and emptied whether or not the copy was made.
abbrev pub trim_log : Trim → List ℕ → Desk → Desk
trim_log sys bytes d =
    let copied = if sys.reads then write_file backup_path bytes sys.writes d else d in
    if sys.truncates then set_file log_path (some []) copied else copied

abbrev pub trim_from : Trim → Option (List ℕ) → Desk → Desk
trim_from sys none d = d
trim_from sys (some bytes) d =
    if not sys.stats || ltb (length bytes) log_cap_bytes then d else trim_log sys bytes d

unfoldable pub rotate_log : Trim → Desk → Desk
unfolding set_file
rotate_log sys d = trim_from sys (d.files log_path) d

abbrev pub last_bytes : List ℕ → List ℕ
last_bytes bytes =
    if ltb tail_bytes (length bytes) then drop (length bytes - tail_bytes) bytes else bytes

abbrev pub show_from : (reads : Bool) → FileWrite → Option (List ℕ) → Desk → Desk
show_from reads w none d = open_viewer log_path d
show_from false w (some bytes) d = open_viewer log_path d
show_from true written (some bytes) d =
    open_viewer tail_path (set_file tail_path (some (last_bytes bytes)) d)
show_from true (not_written leaves) (some bytes) d =
    open_viewer log_path (set_file tail_path leaves d)

unfoldable pub show_log_tail : (reads : Bool) → FileWrite → Desk → Desk
unfolding set_file open_viewer
show_log_tail reads w d = show_from reads w (d.files log_path) d
