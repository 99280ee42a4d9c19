-- ===== src/Wabridge/Tray.antt =====
-- The tray of delivery/tray/tray.go: the status line with the connection that it asks for, and the menu.
-- A round of the status loop only starts the goroutine of `Connect`, which runs under the session's mutex
-- when it is scheduled: other steps may come between.
pub mod Heals
use whatsmcp.Base.{
  Bool, true, false, not, Option, none, some, if◌then◌else◌, List, [], ◌∷◌, ◌++◌, Text, codes,
}
use whatsmcp.Wabridge.Session.{
  Session, connect, SessionStatus, connected_state, offline_state, logged_out_state, status,
}

-- The title of the status item, and the tooltip.
pub record TrayText : Type 0 where
  pub title : Text
  pub tooltip : Text

abbrev pub tray_text : Text → SessionStatus → TrayText
tray_text account connected_state = record {
  title = codes "Status: CONNECTED (" ++ (account ++ codes ")");
  tooltip = codes "WhatsApp Bridge - connected";
}
tray_text account offline_state = record {
  title = codes "Status: reconnecting...";
  tooltip = codes "WhatsApp Bridge - reconnecting";
}
tray_text account logged_out_state = record {
  title = codes "Status: LOGGED OUT - click Connect (QR)";
  tooltip = codes "WhatsApp Bridge - logged out, scan the QR code";
}

-- A session that is off line is connected again.
abbrev pub asks_connect : SessionStatus → Bool
asks_connect offline_state = true
asks_connect _ = false

-- Whether a goroutine of `Connect` is started, and what is shown. `none`: there is no status item yet.
-- `account` is the user of the session.
unfoldable pub refresh_status : (has_item : Bool) → Text → Session → Bool × Option TrayText
unfolding status
refresh_status false account s = (false, none)
refresh_status true account s = (asks_connect (status s), some (tray_text account (status s)))

-- The goroutine that a round has started or not, when it is scheduled.
unfoldable pub run_connect : Bool → Session → Session
unfolding connect
run_connect started s = if started then connect s else s

pub data Click : Type 0 where
  connect_click : Click
  log_click : Click
  folder_click : Click
  quit_click : Click

-- What a click opens or ends.
pub data MenuEffect : Type 0 where
  connects : MenuEffect
  opens_logs : (url : Text) → MenuEffect
  opens_folder : MenuEffect
  quits : MenuEffect

-- The loop over the clicks, up to the one that quits; a click to connect starts the goroutine of
-- `Connect`.
unfoldable pub menu_loop : (logs_url : Text) → List Click → List MenuEffect
menu_loop logs_url [] = []
menu_loop logs_url (connect_click ∷ clicks) = connects ∷ menu_loop logs_url clicks
menu_loop logs_url (log_click ∷ clicks) = opens_logs logs_url ∷ menu_loop logs_url clicks
menu_loop logs_url (folder_click ∷ clicks) = opens_folder ∷ menu_loop logs_url clicks
menu_loop logs_url (quit_click ∷ clicks) = quits ∷ []
