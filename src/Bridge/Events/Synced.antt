-- ===== src/Bridge/Events/Synced.antt =====
-- A history sync keeps the store well-formed, whichever statements the engine refuses.
use whatsmcp.Base.{
  ◌&&◌, ◌==◌, Bool, Option, none, some, List, [], ◌∷◌, Text, is_empty, Option-cases, inl, inr,
  by_arms,
}
use whatsmcp.Sql.{Db}
use whatsmcp.Bridge.Std.{Std}
use whatsmcp.Bridge.Content.{extract_text_content, extract_quoted}
use whatsmcp.Bridge.Media.{MediaInfo}
use whatsmcp.Bridge.Store.{Tables, fill_history_message, store_chat}
use whatsmcp.Bridge.Store.Invariant.{WellFormed}
use whatsmcp.Bridge.Store.Calls.{fill_history_message-WellFormed, store_message-WellFormed}
use whatsmcp.Bridge.Events.{
  WaJid, Names, Client, WebMessage, Conversation, message_id, key_from_me, key_sender, history_info,
  history_message, history_messages, sync_messages, sync_known, sync_conversation, get_chat_name,
  handle_history_sync,
}
use whatsmcp.Bridge.Events.Invariant.{get_chat_name-WellFormed, charted-WellFormed}

abbrev OfDb : Db Tables → Type 0
OfDb db = WellFormed db.tables

module _ (lib : Std) (client : Client) (chat_jid : Text) (jid : WaJid) where
  history_message-WellFormed :
      (msg : WebMessage) (db : Db Tables)
      → WellFormed db.tables
      → WellFormed ((history_message lib client chat_jid jid msg db).tables)
  unfolding history_message
  history_message-WellFormed msg db h =
      let content : Text = extract_text_content lib msg.message in
      let info : MediaInfo = history_info lib msg in
      let quoted : Text × Text = extract_quoted lib msg.message in
      let id : Text = message_id msg.key in
      let filled : Db Tables × Bool = fill_history_message id chat_jid content db in
      let kept : WellFormed (filled.0.tables) =
        fill_history_message-WellFormed id chat_jid content db h in
      by_arms OfDb (is_empty content && is_empty info.media_type) db _ (λ _. h)
        (λ _.
          by_arms OfDb (filled.1) (filled.0) _ (λ _. kept)
            (λ _.
              by_arms OfDb (msg.timestamp == 0) (filled.0) _ (λ _. kept)
                (λ _.
                  store_message-WellFormed id chat_jid (key_sender client jid msg.key) content
                    msg.timestamp (key_from_me msg.key) info (quoted.0) (quoted.1) (filled.0)
                    kept)))

  history_messages-WellFormed :
      (msgs : List (Option WebMessage)) (db : Db Tables)
      → WellFormed db.tables
      → WellFormed ((history_messages lib client chat_jid jid msgs db).tables)
  unfolding history_messages
  history_messages-WellFormed [] db h = h
  history_messages-WellFormed (none ∷ msgs) db h = history_messages-WellFormed msgs db h
  history_messages-WellFormed (some msg ∷ msgs) db h =
      history_messages-WellFormed msgs (history_message lib client chat_jid jid msg db)
        (history_message-WellFormed msg db h)

  sync_messages-WellFormed :
      (name : Text) (msgs : List (Option WebMessage)) (db : Db Tables)
      → WellFormed db.tables
      → WellFormed ((sync_messages lib client chat_jid jid name msgs db).tables)
  unfolding sync_messages
  sync_messages-WellFormed name [] db h = h
  sync_messages-WellFormed name (none ∷ msgs) db h = h
  sync_messages-WellFormed name (some msg ∷ msgs) db h =
      by_arms OfDb (msg.timestamp == 0) db _ (λ _. h)
        (λ _.
          history_messages-WellFormed (some msg ∷ msgs)
            ((store_chat chat_jid name msg.timestamp db).0)
            (charted-WellFormed chat_jid name msg.timestamp db h))

module _ (lib : Std) (client : Client) where
  sync_known-WellFormed :
      (c : Conversation) (chat_jid : Text) (jid : Option WaJid) (db : Db Tables)
      → WellFormed db.tables
      → WellFormed ((sync_known lib client c chat_jid jid db).tables)
  sync_known-WellFormed c chat_jid none db h = h
  sync_known-WellFormed c chat_jid (some jid) db h =
      let names : Option Names = some (c.display_name, c.name) in
      let named : Db Tables × Text = get_chat_name client jid chat_jid names [] db in
      sync_messages-WellFormed lib client chat_jid jid (named.1) c.messages (named.0)
        (get_chat_name-WellFormed client jid chat_jid names [] db h)

  sync_conversation-WellFormed :
      (c : Conversation) (db : Db Tables)
      → WellFormed db.tables
      → WellFormed ((sync_conversation lib client c db).tables)
  unfolding sync_conversation
  sync_conversation-WellFormed c db h = elim (Option-cases c.id) [
    | inl e ↦ rw e h
    | inr (chat_jid, e) ↦ rw e (sync_known-WellFormed c chat_jid (client.parse_jid chat_jid) db h)
  ]

  pub handle_history_sync-WellFormed :
      (cs : List Conversation) (db : Db Tables)
      → WellFormed db.tables
      → WellFormed ((handle_history_sync lib client cs db).tables)
  unfolding handle_history_sync
  handle_history_sync-WellFormed [] db h = h
  handle_history_sync-WellFormed (c ∷ cs) db h =
      handle_history_sync-WellFormed cs (sync_conversation lib client c db)
        (sync_conversation-WellFormed c db h)
