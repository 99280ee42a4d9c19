-- ===== src/Bridge/Mcp/Tools.antt =====
-- The other tools of whatsapp-bridge/mcp.go: the search for contacts, the two that send, and the
-- download.
use whatsmcp.Base.{
  Bool, not, ◌&&◌, ◌||◌, List, [], map, Text, codes, is_empty, text_eq, trim_space, take, cut,
  if◌then◌else◌,
}
use whatsmcp.Sql.{Db, select, order_by}
use whatsmcp.Bridge.Std.{Std}
use whatsmcp.Bridge.Jids.{JidMap}
use whatsmcp.Bridge.Store.{Tables, ChatRow}
use whatsmcp.Bridge.Send.{Sender, SendError, Outcome, sent, failed, send_whatsapp_message}
use whatsmcp.Bridge.Download.{
  Files, Download, cached, fetched, not_downloaded, DownloadError, download_media,
}
use whatsmcp.Bridge.Mcp.{Engine, Answer, text_lt}
use whatsmcp.Bridge.Mcp.Chats.{around_pattern, if_open}

pub record Contact : Type 0 where
  pub phone_number : Text
  pub name : Text
  pub jid : Text

module _ (engine : Engine) (jids : JidMap) where
  -- `ORDER BY name, jid`.
  abbrev pub by_name_and_jid : ChatRow → ChatRow → Bool
  by_name_and_jid c d =
      text_lt c.name d.name || (text_eq c.name d.name && not (text_lt d.jid c.jid))

  abbrev contact_of : ChatRow → Contact
  contact_of c = record { phone_number = (cut b'@' c.jid).0; name = c.name; jid = c.jid }

  -- The chats that are no groups; at most fifty.
  unfoldable pub find_contacts : Text → Tables → List Contact
  unfolding select order_by text_lt text_eq cut
  find_contacts q t =
      let pattern = engine.lower (around_pattern engine jids q) in
      map contact_of (
        take 50 (
          order_by by_name_and_jid (
            select
              (λ c.
                (engine.like pattern (engine.lower c.name)
                  || engine.like pattern (engine.lower c.jid))
                && not (engine.like (codes "%@g.us") c.jid))
              t.chats)))

  unfoldable pub search_contacts : Bool → Text → Db Tables → Db Tables × Answer (List Contact)
  unfolding find_contacts
  search_contacts is_open q = if_open engine jids is_open (find_contacts q)

pub data ToolError : Type 0 where
  recipient_required : ToolError
  message_required : ToolError
  media_path_required : ToolError
  client_not_running : ToolError
  bridge_not_ready : ToolError
  not_sent : SendError → ToolError
  not_fetched : DownloadError → ToolError

pub data ToolAnswer : Type 0 where
  tool_error : ToolError → ToolAnswer
  message_sent : (recipient id : Text) → ToolAnswer
  media_ready : (media_type path : Text) → ToolAnswer

abbrev send_answer : Text → Outcome → ToolAnswer
send_answer recipient (sent id mutes) = message_sent recipient id
send_answer recipient (failed e) = tool_error (not_sent e)

-- `running`: the client is there.
unfoldable pub send :
    Sender
    → Std
    → (running : Bool) → (recipient message path : Text) → Db Tables
    → Db Tables × ToolAnswer
unfolding send_whatsapp_message trim_space
send client lib running recipient message path db =
    let (done, outcome) = send_whatsapp_message client lib recipient message path db in
    if is_empty (trim_space recipient)
    then (db, tool_error recipient_required)
    else if not running
    then (db, tool_error client_not_running)
    else (done, send_answer recipient outcome)

unfoldable pub tool_send_message :
    Sender
    → Std
    → (running : Bool) → (recipient message : Text) → Db Tables
    → Db Tables × ToolAnswer
unfolding send
tool_send_message client lib running recipient message db =
    if is_empty message
    then (db, tool_error message_required)
    else send client lib running recipient message [] db

unfoldable pub tool_send_file :
    Sender
    → Std
    → (running : Bool) → (recipient media_path : Text) → Db Tables
    → Db Tables × ToolAnswer
unfolding send
tool_send_file client lib running recipient media_path db =
    if is_empty media_path
    then (db, tool_error media_path_required)
    else send client lib running recipient [] media_path db

abbrev download_answer : Download → ToolAnswer
download_answer (cached media_type filename path) = media_ready media_type path
download_answer (fetched media_type filename path here bytes) = media_ready media_type path
download_answer (not_downloaded e) = tool_error (not_fetched e)

-- `ready`: the client and the store are there.
unfoldable pub tool_download_media :
    Files → (ready : Bool) → (message_id chat_jid : Text) → Db Tables → Db Tables × ToolAnswer
unfolding download_media
tool_download_media files ready message_id chat_jid db =
    let (done, d) = download_media files message_id chat_jid db in
    if not ready then (db, tool_error bridge_not_ready) else (done, download_answer d)
