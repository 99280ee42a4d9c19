-- ===== src/Bridge/Rest/Serve.antt =====
-- The routes of the REST server behind its guard, `guardLocal` of whatsapp-bridge/main.go.
pub mod Safe
use whatsmcp.Base.{
  ℕ, Bool, true, false, not, ◌&&◌, ◌||◌, Option, none, some, List, [], ◌∷◌, Text, codes, text_eq,
  is_some, if◌then◌else◌,
}
use whatsmcp.Sql.{Db}
use whatsmcp.Bridge.Store.{Tables}
use whatsmcp.Bridge.Select.{SelectOptionRequest}
use whatsmcp.Bridge.Rest.{
  HttpCall, SendMessageRequest, RevokeRequest, DownloadMediaRequest, Response, http_error, Server,
  handle_sync_labels, handle_pair_phone, handle_send, handle_select_option, handle_menu_options,
  handle_revoke, handle_download,
}

-- What is asked of a route of `startRESTServer`.
pub data Route : Type 0 where
  sync_labels_route : Route
  pair_phone_route : HttpCall Text → Route
  send_route : HttpCall SendMessageRequest → Route
  select_option_route : HttpCall SelectOptionRequest → Route
  menu_options_route : (message_id chat_jid : Text) → Route
  revoke_route : HttpCall RevokeRequest → Route
  download_route : HttpCall DownloadMediaRequest → Route

-- A request with its `Host`, and what `http.CrossOriginProtection` says of it: the refusal, or
-- `none`.
pub record Request : Type 0 where
  pub host : Text
  pub cross_origin : Option Text
  pub route : Route

module _ (server : Server) where
  unfoldable pub dispatch : Route → Db Tables → Db Tables × Response
  unfolding handle_sync_labels handle_pair_phone handle_send handle_select_option
      handle_menu_options handle_revoke handle_download
  dispatch sync_labels_route = handle_sync_labels server
  dispatch (pair_phone_route r) = handle_pair_phone server r
  dispatch (send_route r) = handle_send server r
  dispatch (select_option_route r) = handle_select_option server r
  dispatch (menu_options_route message_id chat_jid) = handle_menu_options server message_id chat_jid
  dispatch (revoke_route r) = handle_revoke server r
  dispatch (download_route r) = handle_download server r

abbrev pub forbidden_host : Response
forbidden_host = http_error 403 (codes "Forbidden host")

-- `net.SplitHostPort`, the host; `none` is an error, and the host is all of it then.
module _ (split_host_port : Text → Option Text) where
  abbrev pub or_all : Text → Option Text → Text
  or_all host none = host
  or_all host (some h) = h

  unfoldable pub is_local_host : Text → Bool
  unfolding text_eq
  is_local_host host =
      let h = or_all host (split_host_port host) in
      text_eq h (codes "localhost") || text_eq h (codes "127.0.0.1") || text_eq h (codes "::1")

  abbrev pub protect : Option Text → Db Tables × Response → Db Tables → Db Tables × Response
  protect (some refusal) served db = (db, http_error 403 refusal)
  protect none served db = served

  unfoldable pub guard_local : Server → Request → Db Tables → Db Tables × Response
  unfolding is_local_host dispatch
  guard_local server r db =
      if not (is_local_host r.host)
      then (db, forbidden_host)
      else protect r.cross_origin (dispatch server r.route db) db

  -- The requests in the order in which they come.
  unfoldable pub serve : Server → List Request → Db Tables → Db Tables
  unfolding guard_local
  serve server [] db = db
  serve server (r ∷ rs) db = serve server rs ((guard_local server r db).0)
