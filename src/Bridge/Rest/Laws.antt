-- ===== src/Bridge/Rest/Laws.antt =====
-- What a handler of the REST server leaves in the store.
use whatsmcp.Base.{
  ℕ, ◌≡◌, ◌≢◌, refl, Bool, true, not, ◌||◌, Option, none, some, Text, is_empty, pair_key, same,
  by_arms, Bool-cases, inl, inr, arith, if◌then◌else◌,
}
use whatsmcp.Sql.{Db, has_key}
use whatsmcp.Sql.Keyed.{option_map, first-delete_key, first-update_key}
use whatsmcp.Bridge.Events.{WaJid}
use whatsmcp.Bridge.Store.{Tables, MessageRow, message_key, change_messages, set_content}
use whatsmcp.Bridge.Store.Rows.{Healthy, find_message, exec-Healthy}
use whatsmcp.Bridge.Rest.{
  RevokeRequest, Response, http_error, json, aborted, Server, delete_message, mirror, revoke_in,
  revoke_body, handle_revoke, method_not_allowed, correction, correction_failed, keys_required,
  bad_chat_jid,
}

abbrev pub status : Response → ℕ
status (http_error code text) = code
status (json code content) = code
status aborted = 0

-- The row of the message behind the correction.
abbrev pub corrected_row : RevokeRequest → Option MessageRow → Option MessageRow
corrected_row req row =
    if is_empty req.new_text then none else option_map (set_content req.new_text) row

mirror_lem :
    (req : RevokeRequest) (db : Db Tables) (k : Text × Text)
    → Healthy db
    → find_message k ((mirror true req db).tables) ≡ (
        if same (req.message_id, req.chat_jid) k
        then corrected_row req (find_message k db.tables)
        else find_message k db.tables)
unfolding mirror delete_message
mirror_lem req db k h = elim (Bool-cases (is_empty req.new_text)) [
  | inl deletes ↦
      rw
        (
          deletes,
          exec-Healthy (delete_message req.message_id req.chat_jid) db _ h refl,
          first-delete_key message_key (req.message_id, req.chat_jid) k db.tables.messages,
        )
        refl
  | inr edits ↦
      rw
        (
          edits,
          exec-Healthy
              (change_messages (has_key message_key (req.message_id, req.chat_jid))
                (set_content req.new_text))
              db _ h refl,
          first-update_key message_key (req.message_id, req.chat_jid) k (set_content req.new_text)
              db.tables.messages (λ _. refl),
        )
        refl
]

-- With status 200 the message is gone, or has the new text, and no other message has changed; with any
-- other status nothing has changed.
abbrev pub Corrects : RevokeRequest → Db Tables → Db Tables × Response → Type 0
Corrects req db r =
    (status r.1 ≡ 200
      → (k : Text × Text)
      → find_message k r.0.tables ≡ (
          if same (req.message_id, req.chat_jid) k
          then corrected_row req (find_message k db.tables)
          else find_message k db.tables))
    × (status r.1 ≢ 200 → r.0 ≡ db)

refused-Corrects :
    (req : RevokeRequest) (db : Db Tables) (response : Response)
    → status response ≢ 200
    → Corrects req db (db, response)
refused-Corrects req db response other = (λ is_200 _. absurd (other is_200), λ _. refl)

module _ (server : Server) (open_store : server.store_open ≡ true) where
  revoke_in-Corrects :
      (req : RevokeRequest) (chat : Option WaJid) (db : Db Tables)
      → Healthy db
      → Corrects req db (revoke_in server req chat db)
  revoke_in-Corrects req none db h = refused-Corrects req db bad_chat_jid (λ e. omega arith)
  revoke_in-Corrects req (some chat) db h =
      by_arms (Corrects req db) (not (server.send_correction chat (correction server req)))
        (db, json 500 correction_failed) (mirror server.store_open req db, json 200 _)
        (λ _. refused-Corrects req db (json 500 correction_failed) (λ e. omega arith))
        (λ _. (λ _ k. rw open_store (mirror_lem req db k h), λ other. absurd (other refl)))

  -- A revocation with status 200 has deleted the stored message, or edited its text, and changed no
  -- other; with any other status it has changed nothing. The store is open and refuses no statement.
  pub handle_revoke-Corrects :
      (post : Bool) (req : RevokeRequest) (db : Db Tables)
      → Healthy db
      → Corrects req db (handle_revoke server (record { post = post; body = some req }) db)
  unfolding handle_revoke
  handle_revoke-Corrects post req db h =
      by_arms (Corrects req db) (not post) (db, method_not_allowed)
        (revoke_body server (some req) db)
        (λ _. refused-Corrects req db method_not_allowed (λ e. omega arith))
        (λ _.
          by_arms (Corrects req db) (is_empty req.message_id || is_empty req.chat_jid)
            (db, keys_required) (revoke_in server req (server.sender.parse_jid req.chat_jid) db)
            (λ _. refused-Corrects req db keys_required (λ e. omega arith))
            (λ _. revoke_in-Corrects req (server.sender.parse_jid req.chat_jid) db h))
