-- ===== src/Bridge/Mcp/Shown.antt =====
-- From the client to a tool: a message that is handled is what the tools show, also behind a history
-- sync.
use mathlib.Core.List.{Memᴰ}
use mathlib.Core.List.Memᴰ
use whatsmcp.Base.{
  ℕ, inl, inr, Bool-cases, ◌*◌, ◌≡◌, ◌≤◌, refl, ap, ◌∙◌, arith, Bool, true, false, some, List, [],
  ◌∷◌, ◌++◌, Option, Text, is_empty, trim_space, length, pair_key, text_key,
}
use whatsmcp.Sql.{Db, query, select, order_by, has_key}
use whatsmcp.Sql.Member.{
  mem_of_first, select_mem, order_by_mem, take_mem, length-select_le, length-order_by,
}
use whatsmcp.Bridge.Std.{Std}
use whatsmcp.Bridge.Proto.{inner}
use whatsmcp.Bridge.Content.{extract_text_content}
use whatsmcp.Bridge.Store.{Tables, MessageRow, message_key}
use whatsmcp.Bridge.Store.Menus.{Wire}
use whatsmcp.Bridge.Store.Menus.Stored.{sound}
use whatsmcp.Bridge.Events.{Client, MessageEvent, Conversation, handle_message, handle_history_sync}
use whatsmcp.Bridge.Events.Keep.{Kept, KeepsRow}
use whatsmcp.Bridge.Events.History.{handle_history_sync-Kept}
use whatsmcp.Bridge.Store.Rows.{find_message}
use whatsmcp.Bridge.Events.Arrived.{Holding, handle_message-Holds}
use whatsmcp.Bridge.Jids.{JidMap, sides}
use whatsmcp.Bridge.Mcp.{
  Engine, ListMessagesIn, Answer, answer, or_default, is_in, newest, matches, find_messages,
  list_messages, with_context, around, splice, rows_before, rows_after, ptr_or, or_true, answered,
}

-- How the messages around a match are asked for.
pub record Context : Type 0 where
  pub include : Option Bool
  pub before : Option ℕ
  pub after : Option ℕ

-- All of a chat.
abbrev pub all_of : Context → (chat_jid : Text) → (limit : ℕ) → ListMessagesIn
all_of around chat_jid limit = record {
  after = [];
  before = [];
  sender_phone = [];
  chat_jid = chat_jid;
  query = [];
  limit = limit;
  page = 0;
  include_context = around.include;
  context_before = around.before;
  context_after = around.after;
}

-- The answer has a row of this key with this text.
abbrev pub Shows : Text × Text → Text → Answer (List MessageRow) → Type 0
Shows k content a =
    (rows : List MessageRow) × (r : MessageRow) × (a ≡ answer rows)
    × Memᴰ r rows
    × (message_key r ≡ k)
    × (r.content ≡ content)

no_pages : (n : ℕ) → 0 * n ≡ 0
no_pages n = omega arith

spliced_mem :
    (x r : MessageRow) (b a found rows : List MessageRow)
    → (Memᴰ r found → Memᴰ r rows)
    → Memᴰ r (x ∷ found)
    → Memᴰ r (b ++ (x ∷ a ++ rows))
spliced_mem x r b a found rows keeps (Memᴰ.head e) = Memᴰ.append_right b (Memᴰ.head e)
spliced_mem x r b a found rows keeps (Memᴰ.tail m) =
    Memᴰ.append_right b (Memᴰ.tail (Memᴰ.append_right a (keeps m)))

module _ (engine : Engine) (jids : JidMap) (n_before n_after : ℕ) (t : Tables) where
  -- The rows with those around them, where the engine refuses nothing: every row is among them.
  with_context_mem :
      (found : List MessageRow)
      → (rows : List MessageRow) × (with_context engine jids n_before n_after found (sound t)
          ≡ (sound t, some rows))
        × ((r : MessageRow) → Memᴰ r found → Memᴰ r rows)
  unfolding with_context around query
  with_context_mem [] = ([], refl, λ r m. m)
  with_context_mem (x ∷ found) =
      let (rows, same, keeps) = with_context_mem found in
      let b = rows_before engine jids x n_before t in
      let a = rows_after engine jids x n_after t in
      (
        b ++ (x ∷ a ++ rows),
        ap (λ p. splice engine jids x (sound t) (some (b, a)) p.0 p.1) same,
        λ r. spliced_mem x r b a found rows (keeps r),
      )

module _ (engine : Engine) (jids : JidMap) (near : Context) (chat_jid : Text) (limit : ℕ) where
  matches-all_of :
      (r : MessageRow)
      → is_empty (trim_space chat_jid) ≡ false
      → is_in (sides jids chat_jid) chat_jid ≡ true
      → r.chat_jid ≡ chat_jid
      → matches engine jids (all_of near chat_jid limit) r ≡ true
  unfolding matches
  matches-all_of r named own same_chat = rw (named, same_chat, own) refl

  find_messages-all_of :
      (r : MessageRow) (t : Tables)
      → is_empty (trim_space chat_jid) ≡ false
      → is_in (sides jids chat_jid) chat_jid ≡ true
      → length t.messages ≤ or_default limit 20
      → r.chat_jid ≡ chat_jid
      → Memᴰ r t.messages
      → Memᴰ r (find_messages engine jids (all_of near chat_jid limit) t)
  unfolding find_messages
  find_messages-all_of r t named own enough same_chat m =
      let p : MessageRow → Bool = matches engine jids (all_of near chat_jid limit) in
      let rows : List MessageRow = order_by (newest engine jids) (select p t.messages) in
      rw (no_pages (or_default limit 20)) (
        take_mem (or_default limit 20) r rows
          (omega (
            arith,
            enough,
            length-select_le p t.messages,
            length-order_by (newest engine jids) (select p t.messages),
          ))
          (order_by_mem (newest engine jids) r (select p t.messages)
            (select_mem p r t.messages (matches-all_of r named own same_chat) m)))

  -- What is found is in the answer, with or without the rows around it.
  list_messages-all_of :
      (t : Tables)
      → is_empty (trim_space chat_jid) ≡ false
      → (rows : List MessageRow) × ((list_messages engine jids true
            (all_of near chat_jid limit)
            (sound t)).1
          ≡ answer rows)
        × ((r : MessageRow)
            → Memᴰ r (find_messages engine jids (all_of near chat_jid limit) t)
            → Memᴰ r rows)
  unfolding list_messages query
  list_messages-all_of t named =
      let found = find_messages engine jids (all_of near chat_jid limit) t in
      let (rows, same, keeps) =
        with_context_mem engine jids (ptr_or near.before 1) (ptr_or near.after 1) t found in
      elim (Bool-cases (or_true near.include)) [
        | inl around_each ↦
            (rows, rw (named, around_each) (ap (λ p. answered engine jids p.1) same), keeps)
        | inr alone ↦ (found, rw (named, alone) refl, λ r m. m)
      ]

  Holding-Shows :
      (id content : Text) (db : Db Tables) (h : Holding (id, chat_jid) content db)
      → is_empty (trim_space chat_jid) ≡ false
      → is_in (sides jids chat_jid) chat_jid ≡ true
      → length db.tables.messages ≤ or_default limit 20
      → Shows
          (id, chat_jid)
          content
          ((list_messages engine jids true (all_of near chat_jid limit) db).1)
  Holding-Shows id content db h named own enough =
      let (m, hit) =
        mem_of_first (has_key message_key (id, chat_jid)) h.row h.tables.messages h.found in
      let key : message_key h.row ≡ (id, chat_jid) =
        (pair_key.beq_iff (message_key h.row) (id, chat_jid)).0 hit in
      let (rows, shows, keeps) = list_messages-all_of h.tables named in
      (
        rows,
        h.row,
        ap (λ d. (list_messages engine jids true (all_of near chat_jid limit) d).1) h.at ∙ shows,
        keeps h.row (
            find_messages-all_of h.row h.tables named own
              (omega (arith, enough, ap (λ d. length d.tables.messages) h.at)) (ap (λ k. k.1) key)
              m),
        key,
        h.text,
      )

-- A history sync leaves a row with a text as it is.
KeepsRow-content :
    (r s : MessageRow) → is_empty r.content ≡ false → KeepsRow r s → s.content ≡ r.content
KeepsRow-content r s full (inl e) = ap (λ x. x.content) e
KeepsRow-content r s full (inr (bare, _)) =
    let e : is_empty r.content ≡ true = ap is_empty bare in cc

Holding-Kept :
    (k : Text × Text) (content : Text) (a b : Db Tables)
    → is_empty content ≡ false
    → Holding k content a
    → Kept a b
    → Holding k content b
Holding-Kept k content a b full h kept =
    let (s, found, keeps) = kept.rows k h.row (ap (λ d. find_message k d.tables) h.at ∙ h.found) in
    record {
      tables = b.tables;
      row = s;
      at = ap (λ fs. record b { faults = fs }) kept.healthy;
      found = found;
      text = KeepsRow-content h.row s (ap is_empty h.text ∙ full) keeps ∙ h.text;
    }

-- On an engine that refuses nothing, a message with a text that the bridge handles is, behind a history
-- sync of any conversations, in what list_messages shows of its chat, with this text, with or without
-- the context of each message, where the limit is at least the number of stored rows, no filter is given,
-- and the JID of the chat is one of its own sides.
pub handle_message-Shows :
    (lib : Std) (wire : Wire) (client : Client) (engine : Engine) (jids : JidMap)
    (msg : MessageEvent) (cs : List Conversation) (t : Tables) (near : Context) (limit : ℕ)
    → is_empty (extract_text_content lib (inner msg.message)) ≡ false
    → is_empty (trim_space (client.jid_string msg.chat)) ≡ false
    → is_in (sides jids (client.jid_string msg.chat)) (client.jid_string msg.chat) ≡ true
    → length
        (handle_history_sync lib client cs
          (handle_message lib wire client msg (sound t))).tables.messages
      ≤ or_default limit 20
    → Shows
        (msg.id, client.jid_string msg.chat)
        (extract_text_content lib (inner msg.message))
        ((list_messages engine jids true
          (all_of near (client.jid_string msg.chat) limit)
          (handle_history_sync lib client cs (handle_message lib wire client msg (sound t)))).1)
handle_message-Shows lib wire client engine jids msg cs t near limit has_text named own enough =
    let content : Text = extract_text_content lib (inner msg.message) in
    let k : Text × Text = (msg.id, client.jid_string msg.chat) in
    let handled : Db Tables = handle_message lib wire client msg (sound t) in
    let held : Holding k content handled = handle_message-Holds lib wire client msg t has_text in
    let synced : Db Tables = handle_history_sync lib client cs handled in
    let kept : Kept handled synced =
      handle_history_sync-Kept lib client cs handled (ap (λ d. d.faults) held.at) in
    Holding-Shows engine jids near (client.jid_string msg.chat) limit msg.id content synced
      (Holding-Kept k content handled synced has_text held kept) named own enough
