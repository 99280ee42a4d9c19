-- ===== src/Bridge/Rest/Invariant.antt =====
-- Each handler of the REST server keeps the tables well-formed.
use whatsmcp.Base.{
  refl, Bool, not, ◌&&◌, ◌||◌, Option, none, some, Text, is_empty, pair_key, by_arms, if◌then◌else◌,
}
use whatsmcp.Sql.{Db, exec, has_key}
use whatsmcp.Sql.Laws.{delete-HasUniqueKeys, delete-All}
use whatsmcp.Bridge.Events.{WaJid}
use whatsmcp.Bridge.Store.{Tables, message_key, change_messages, set_content}
use whatsmcp.Bridge.Store.Invariant.{WellFormed, Keeps, exec-WellFormed, update-WellFormed, HasChat}
use whatsmcp.Bridge.Select.{SelectOptionRequest}
use whatsmcp.Bridge.Select.Laws.{get_menu_options-tables, select_option-OneClick}
use whatsmcp.Bridge.Send.{Outcome, send_whatsapp_message}
use whatsmcp.Bridge.Send.Invariant.{send_whatsapp_message-WellFormed}
use whatsmcp.Bridge.Download.Laws.{download_media-tables}
use whatsmcp.Bridge.Rest.{
  Server, RevokeRequest, SendMessageRequest, DownloadMediaRequest, HttpCall, delete_message, mirror,
  Response, json, method_not_allowed, send_body, send_answer, select_body, revoke_in, revoke_body,
  download_body, correction, correction_failed, keys_required, media_keys_required,
  recipient_required, message_required, chat_required, handle_send, handle_select_option,
  handle_revoke, handle_download, handle_menu_options,
}

-- The row of a message may go, or change but for its keys.
delete_message-Keeps : (id chat_jid : Text) → Keeps (delete_message id chat_jid)
unfolding delete_message
delete_message-Keeps id chat_jid t (chats, messages, labels, label_chats, raws, options, owned) = (
  chats,
  delete-HasUniqueKeys message_key _ t.messages messages,
  labels,
  label_chats,
  raws,
  options,
  delete-All (HasChat t.chats) _ t.messages owned,
)

mirror-WellFormed :
    (store_open : Bool) (req : RevokeRequest) (db : Db Tables)
    → WellFormed db.tables
    → WellFormed ((mirror store_open req db).tables)
unfolding mirror
mirror-WellFormed store_open req db h =
    let deleted : Db Tables = (exec (delete_message req.message_id req.chat_jid) db).0 in
    let update_it : Tables → Option Tables =
      change_messages (has_key message_key (req.message_id, req.chat_jid))
        (set_content req.new_text) in
    let edited : Db Tables = (exec update_it db).0 in
    by_arms (λ d. WellFormed d.tables) (not store_open) db
      (if is_empty req.new_text then deleted else edited) (λ _. h)
      (λ _.
        by_arms (λ d. WellFormed d.tables) (is_empty req.new_text) deleted edited
          (λ _.
            exec-WellFormed (delete_message req.message_id req.chat_jid) db
              (delete_message-Keeps req.message_id req.chat_jid) h)
          (λ _.
            exec-WellFormed update_it db
              (λ t. update-WellFormed _ (set_content req.new_text) t (λ _. refl)) h))

abbrev pub Served : Db Tables × Response → Type 0
Served r = WellFormed (r.0.tables)

module _ (server : Server) where
  pub handle_send-WellFormed :
      (r : HttpCall SendMessageRequest) (db : Db Tables)
      → WellFormed db.tables
      → Served (handle_send server r db)
  unfolding handle_send
  handle_send-WellFormed r db h =
      by_arms Served (not r.post) (db, method_not_allowed) (send_body server r.body db) (λ _. h)
        (λ _. of_body r.body)
    where
      of_body : (body : Option SendMessageRequest) → Served (send_body server body db)
      of_body none = h
      of_body (some req) =
          let done : Db Tables × Outcome =
            send_whatsapp_message server.sender server.lib req.recipient req.message req.media_path
              db in
          let answer : Db Tables × Response = (done.0, send_answer server req.recipient (done.1)) in
          by_arms Served (is_empty req.recipient) (db, recipient_required)
            (if is_empty req.message && is_empty req.media_path
              then (db, message_required)
              else answer)
            (λ _. h)
            (λ _.
              by_arms Served (is_empty req.message && is_empty req.media_path)
                (db, message_required) answer (λ _. h)
                (λ _.
                  send_whatsapp_message-WellFormed server.sender server.lib req.recipient
                    req.message req.media_path db h))

  pub handle_select_option-WellFormed :
      (r : HttpCall SelectOptionRequest) (db : Db Tables)
      → WellFormed db.tables
      → Served (handle_select_option server r db)
  unfolding handle_select_option
  handle_select_option-WellFormed r db h =
      by_arms Served (not r.post) (db, method_not_allowed) (select_body server r.body db) (λ _. h)
        (λ _. of_body r.body)
    where
      of_body : (body : Option SelectOptionRequest) → Served (select_body server body db)
      of_body none = h
      of_body (some req) =
          let (same, _, _) = select_option-OneClick server.replier server.lib server.wire req db in
          rw same h

  pub handle_revoke-WellFormed :
      (r : HttpCall RevokeRequest) (db : Db Tables)
      → WellFormed db.tables
      → Served (handle_revoke server r db)
  unfolding handle_revoke
  handle_revoke-WellFormed r db h =
      by_arms Served (not r.post) (db, method_not_allowed) (revoke_body server r.body db) (λ _. h)
        (λ _. of_body r.body)
    where
      in_chat : (req : RevokeRequest) (chat : Option WaJid) → Served (revoke_in server req chat db)
      in_chat req none = h
      in_chat req (some chat) =
          by_arms Served (not (server.send_correction chat (correction server req)))
            (db, json 500 correction_failed) _ (λ _. h)
            (λ _. mirror-WellFormed server.store_open req db h)

      of_body : (body : Option RevokeRequest) → Served (revoke_body server body db)
      of_body none = h
      of_body (some req) =
          by_arms Served (is_empty req.message_id || is_empty req.chat_jid) (db, keys_required) _
            (λ _. h) (λ _. in_chat req (server.sender.parse_jid req.chat_jid))

  pub handle_download-WellFormed :
      (r : HttpCall DownloadMediaRequest) (db : Db Tables)
      → WellFormed db.tables
      → Served (handle_download server r db)
  unfolding handle_download
  handle_download-WellFormed r db h =
      by_arms Served (not r.post) (db, method_not_allowed) (download_body server r.body db) (λ _. h)
        (λ _. of_body r.body)
    where
      of_body : (body : Option DownloadMediaRequest) → Served (download_body server body db)
      of_body none = h
      of_body (some req) =
          by_arms Served (is_empty req.message_id || is_empty req.chat_jid)
            (db, media_keys_required) _ (λ _. h)
            (λ _. rw (download_media-tables server.files req.message_id req.chat_jid db) h)

  pub handle_menu_options-WellFormed :
      (message_id chat_jid : Text) (db : Db Tables)
      → WellFormed db.tables
      → Served (handle_menu_options server message_id chat_jid db)
  unfolding handle_menu_options
  handle_menu_options-WellFormed message_id chat_jid db h =
      by_arms Served (is_empty chat_jid) (db, json 400 chat_required) _ (λ _. h)
        (λ _. rw (get_menu_options-tables message_id chat_jid db) h)
