-- ===== src/Bridge/Events/History.antt =====
-- A history sync keeps what is stored.
use whatsmcp.Base.{
  ◌≡◌, ◌≢◌, refl, sym, by_arms, ap, ◌∙◌, inl, inr, false, ◌==◌, Option, none, some, List, [], ◌∷◌,
  Text, is_empty, is_some, Bool-cases, Option-cases, is_empty-eq-true,
}
use whatsmcp.Sql.{Db, query}
use whatsmcp.Bridge.Std.{Std}
use whatsmcp.Bridge.Content.{extract_text_content, extract_quoted}
use whatsmcp.Bridge.Store.{Tables, ChatRow, store_chat, fill_history_message}
use whatsmcp.Bridge.Store.Rows.{
  Healthy, find_message, option_map, after_history, fill_history_message_lem,
}
use whatsmcp.Bridge.Events.{
  WaJid, Client, Names, get_chat_name, WebMessage, Conversation, message_id, key_from_me,
  key_sender, history_info, history_message, history_messages, sync_messages, sync_conversation,
  handle_history_sync, sync_known,
}
use whatsmcp.Bridge.Events.Keep.{
  Kept, find_chat, Kept-refl, Kept-trans, fill-Kept, store_chat-Kept, store_message-Kept,
}

-- With no statement refused, the name query only reads; a chat that has a name keeps it.
pub get_chat_name_lem :
    (client : Client) (jid : WaJid) (chat_jid : Text) (conversation : Option Names) (sender : Text)
    (db : Db Tables)
    → Healthy db
    → Kept db ((get_chat_name client jid chat_jid conversation sender db).0)
      × ((c : ChatRow)
          → find_chat chat_jid ((get_chat_name client jid chat_jid conversation sender db).0.tables)
            ≡ some c
          → c.name ≢ []
          → (get_chat_name client jid chat_jid conversation sender db).1 ≡ c.name)
unfolding get_chat_name query
get_chat_name_lem client jid chat_jid conversation sender db h = (
  rw h (record {
    healthy = refl;
    rows = λ k r has. (r, has, inl refl);
    names = λ jid c has named. (c, has, refl);
  }),
  λ c has named. elim (Bool-cases (is_empty c.name)) [
    | inl bare ↦ absurd (named (is_empty-eq-true c.name bare))
    | inr full ↦ rw (h, has, full) refl
  ],
)

none_of_is_some {ℓ} : {A : Type ℓ} (o : Option A) → is_some o ≡ false → o ≡ none
none_of_is_some none e = refl
none_of_is_some (some a) e = cc

module _ (lib : Std) (client : Client) where
  history_message-Kept :
      (chat_jid : Text) (jid : WaJid) (msg : WebMessage) (db : Db Tables)
      → Healthy db
      → Kept db (history_message lib client chat_jid jid msg db)
  unfolding history_message
  history_message-Kept chat_jid jid msg db h =
      let id : Text = message_id msg.key in
      let content : Text = extract_text_content lib msg.message in
      let (answer, healthy, _, rows) = fill_history_message_lem id chat_jid content db h in
      let fills : Kept db ((fill_history_message id chat_jid content db).0) =
        fill-Kept id chat_jid content db h in
      let filled : Db Tables = (fill_history_message id chat_jid content db).0 in
      let new : (fill_history_message id chat_jid content db).1 ≡ false
          → find_message (id, chat_jid) filled.tables ≡ none =
        λ unknown.
          rows (id, chat_jid)
          ∙ ap (λ o. option_map (after_history (id, chat_jid) content) o)
              (none_of_is_some (find_message (id, chat_jid) db.tables) (sym answer ∙ unknown)) in
      by_arms (Kept db) _ db _ (λ _. Kept-refl db h)
        (λ _.
          by_arms (Kept db) ((fill_history_message id chat_jid content db).1) filled _ (λ _. fills)
            (λ unknown.
              by_arms (Kept db) (msg.timestamp == 0) filled _ (λ _. fills)
                (λ _. Kept-trans db filled _ fills (
                  store_message-Kept id chat_jid (key_sender client jid msg.key) content
                    msg.timestamp (key_from_me msg.key) (history_info lib msg)
                    (extract_quoted lib msg.message).0 (extract_quoted lib msg.message).1 filled
                    healthy (new unknown)))))

  history_messages-Kept :
      (chat_jid : Text) (jid : WaJid) (msgs : List (Option WebMessage)) (db : Db Tables)
      → Healthy db
      → Kept db (history_messages lib client chat_jid jid msgs db)
  unfolding history_messages
  history_messages-Kept chat_jid jid [] db h = Kept-refl db h
  history_messages-Kept chat_jid jid (none ∷ msgs) db h =
      history_messages-Kept chat_jid jid msgs db h
  history_messages-Kept chat_jid jid (some msg ∷ msgs) db h =
      let next : Db Tables = history_message lib client chat_jid jid msg db in
      let once : Kept db next = history_message-Kept chat_jid jid msg db h in
      Kept-trans db next _ once (history_messages-Kept chat_jid jid msgs next once.healthy)

  sync_messages-Kept :
      (chat_jid : Text) (jid : WaJid) (name : Text) (msgs : List (Option WebMessage))
      (db : Db Tables)
      → Healthy db
      → ((c : ChatRow) → find_chat chat_jid db.tables ≡ some c → c.name ≢ [] → name ≡ c.name)
      → Kept db (sync_messages lib client chat_jid jid name msgs db)
  unfolding sync_messages
  sync_messages-Kept chat_jid jid name [] db h known = Kept-refl db h
  sync_messages-Kept chat_jid jid name (none ∷ msgs) db h known = Kept-refl db h
  sync_messages-Kept chat_jid jid name (some msg ∷ msgs) db h known =
      let next : Db Tables = (store_chat chat_jid name msg.timestamp db).0 in
      let charted : Kept db next = store_chat-Kept chat_jid name msg.timestamp db h known in
      by_arms (Kept db) (msg.timestamp == 0) db _ (λ _. Kept-refl db h)
        (λ _.
          Kept-trans db next _ charted
            (history_messages-Kept chat_jid jid (some msg ∷ msgs) next charted.healthy))

  sync_known-Kept :
      (c : Conversation) (chat_jid : Text) (jid : Option WaJid) (db : Db Tables)
      → Healthy db
      → Kept db (sync_known lib client c chat_jid jid db)
  sync_known-Kept c chat_jid none db h = Kept-refl db h
  sync_known-Kept c chat_jid (some jid) db h =
      let names : Option Names = some (c.display_name, c.name) in
      let next : Db Tables = (get_chat_name client jid chat_jid names [] db).0 in
      let (asked, known) = get_chat_name_lem client jid chat_jid names [] db h in
      Kept-trans db next _ asked (
        sync_messages-Kept chat_jid jid ((get_chat_name client jid chat_jid names [] db).1)
          c.messages next asked.healthy known)

  sync_conversation-Kept :
      (c : Conversation) (db : Db Tables) → Healthy db → Kept db (sync_conversation lib client c db)
  unfolding sync_conversation
  sync_conversation-Kept c db h = elim (Option-cases c.id) [
    | inl none_given ↦ rw (none_given, sync_conversation) (Kept-refl db h)
    | inr (chat_jid, given) ↦
        rw (given, sync_conversation) (sync_known-Kept c chat_jid (client.parse_jid chat_jid) db h)
  ]

-- With no statement refused, a history sync of any conversations loses no stored message, changes
-- none but to fill in a missing content, and keeps the name of every chat that has one.
pub handle_history_sync-Kept :
    (lib : Std) (client : Client) (cs : List Conversation) (db : Db Tables)
    → Healthy db
    → Kept db (handle_history_sync lib client cs db)
unfolding handle_history_sync
handle_history_sync-Kept lib client [] db h = Kept-refl db h
handle_history_sync-Kept lib client (c ∷ cs) db h =
    let next : Db Tables = sync_conversation lib client c db in
    let once : Kept db next = sync_conversation-Kept lib client c db h in
    Kept-trans db next _ once (handle_history_sync-Kept lib client cs next once.healthy)
