-- ===== src/Bridge/Mcp/Chats.antt =====
-- The chats that the MCP server lists (whatsapp-bridge/mcp.go).
pub mod Laws
use whatsmcp.Base.{
  ℕ, ◌+◌, ◌*◌, Bool, true, false, not, ◌&&◌, ◌||◌, ◌==◌, Option, none, some, List, [], ◌∷◌, ◌++◌,
  map, Text, codes, is_empty, text_eq, take, drop, cut, length, has_prefix, if◌then◌else◌,
}
use whatsmcp.Sql.{Db, query, first, select, order_by}
use whatsmcp.Bridge.Store.{Tables, ChatRow, MessageRow}
use whatsmcp.Bridge.Events.{WaJid}
use whatsmcp.Bridge.Jids.{JidMap, sides, senders, user_server, hidden_server}
use whatsmcp.Bridge.Mcp.{
  Engine, Answer, answer, refuse, McpError, store_not_open, engine_failed, is_in, text_lt,
  or_default, or_true, answered,
}

-- `last` is what the joined message shows; `none` is a chat without one, or none asked for.
pub record ChatOut : Type 0 where
  pub jid : Text
  pub name : Text
  pub last_message_time : ℕ
  pub is_group : Bool
  pub last_message : Text
  pub last_sender : Text
  pub last_is_from_me : Option Bool

-- The `LEFT JOIN` on the chat and its last time: a chat once for each message of that time.
abbrev pub pair_with : ChatRow → List MessageRow → List (ChatRow × Option MessageRow)
pair_with c [] = (c, none) ∷ []
pair_with c (m ∷ ms) = map (λ x. (c, some x)) (m ∷ ms)

unfoldable pub join_last :
    Bool → List MessageRow → List ChatRow → List (ChatRow × Option MessageRow)
unfolding select text_eq
join_last with_last messages [] = []
join_last with_last messages (c ∷ cs) =
    (if with_last
      then pair_with c
          (select (λ m. text_eq m.chat_jid c.jid && m.timestamp == c.last_message_time) messages)
      else (c, none) ∷ [])
    ++ join_last with_last messages cs

-- `strings.HasSuffix(s, "@g.us")`.
unfoldable pub ends_in_group : Text → Bool
unfolding text_eq
ends_in_group [] = false
ends_in_group (c ∷ s) = text_eq (c ∷ s) (codes "@g.us") || ends_in_group s

unfoldable pub chat_out : ChatRow × Option MessageRow → ChatOut
unfolding ends_in_group
chat_out (c, m) = record {
  jid = c.jid;
  name = c.name;
  last_message_time = c.last_message_time;
  is_group = ends_in_group c.jid;
  last_message = elim m [ none ↦ [] | some r ↦ r.content ];
  last_sender = elim m [ none ↦ [] | some r ↦ r.sender ];
  last_is_from_me = elim m [ none ↦ none | some r ↦ some r.is_from_me ];
}

-- The scan loop, which skips a chat that it has seen.
unfoldable pub scan_chats : List Text → List (ChatRow × Option MessageRow) → List ChatOut
unfolding is_in chat_out
scan_chats seen [] = []
scan_chats seen ((c, m) ∷ rows) =
    let again = scan_chats seen rows in
    let rest = scan_chats (c.jid ∷ seen) rows in
    if is_in seen c.jid then again else chat_out (c, m) ∷ rest

-- A page of the joined rows; the `LIMIT` counts them before the scan. No limit is all.
abbrev pub page_of {ℓ} : {A : Type ℓ} → Option (ℕ × ℕ) → List A → List A
page_of none rows = rows
page_of (some (limit, page)) rows = take limit (drop (page * limit) rows)

unfoldable pub query_chats :
    Bool
    → (Tables → ChatRow → Bool)
    → (ChatRow → ChatRow → Bool)
    → Option (ℕ × ℕ)
    → Tables
    → List ChatOut
unfolding select order_by join_last scan_chats
query_chats with_last where_ before page t =
    scan_chats []
      (page_of page (join_last with_last t.messages (order_by before (select (where_ t) t.chats))))

pub record ListChatsIn : Type 0 where
  pub query : Text
  pub limit : ℕ
  pub page : ℕ
  pub last_message : Bool
  pub sort_by : Text

module _ (engine : Engine) (jids : JidMap) where
  abbrev pub recent : ChatRow → ChatRow → Bool
  recent c d =
      not
        (text_lt (engine.stored_time c.last_message_time) (engine.stored_time d.last_message_time))

  abbrev pub by_name : ChatRow → ChatRow → Bool
  by_name c d = not (text_lt d.name c.name)

  abbrev pub around_pattern : Text → Text
  around_pattern q = codes "%" ++ (q ++ codes "%")

  unfoldable pub chat_matches : Text → ChatRow → Bool
  chat_matches q c =
      is_empty q
      || engine.like (engine.lower (around_pattern q)) (engine.lower c.name)
      || engine.like (around_pattern q) c.jid

  abbrev pub if_open {ℓ} : {A : Type ℓ} → Bool → (Tables → A) → Db Tables → Db Tables × Answer A
  if_open is_open read db =
      let (asked, value) = query read db in
      if not is_open then (db, refuse store_not_open) else (asked, answered engine jids value)

  unfoldable pub find_chats : ListChatsIn → Tables → List ChatOut
  unfolding query_chats chat_matches or_default text_lt text_eq
  find_chats i =
      query_chats i.last_message (λ _. chat_matches i.query)
        (if text_eq i.sort_by (codes "name") then by_name else recent)
        (some (or_default i.limit 20, i.page))

  unfoldable pub list_chats : Bool → ListChatsIn → Db Tables → Db Tables × Answer (List ChatOut)
  unfolding query find_chats
  list_chats is_open i = if_open is_open (find_chats i)

  -- The first of what is listed; `none` is "not found".
  abbrev pub head_of {ℓ} : {A : Type ℓ} → List A → Option A
  head_of [] = none
  head_of (a ∷ rest) = some a

  -- The table's own order: no `ORDER BY`.
  abbrev pub unordered : ChatRow → ChatRow → Bool
  unordered c d = true

  unfoldable pub get_chat :
      Bool → Text → Option Bool → Db Tables → Db Tables × Answer (Option ChatOut)
  unfolding query query_chats text_eq
  get_chat is_open jid last =
      if_open is_open
        (λ t. head_of (query_chats (or_true last) (λ _ c. text_eq c.jid jid) unordered none t))

  unfoldable pub direct_chat : Bool → Text → Db Tables → Db Tables × Answer (Option ChatOut)
  unfolding query query_chats is_in sides text_lt
  direct_chat is_open phone =
      if_open is_open
        (λ t. head_of (query_chats true (λ _ c. is_in (sides jids phone) c.jid) recent none t))

  -- The chats of a contact, and those in which it sent a message.
  abbrev pub sent_in : Text → Tables → Text → Bool
  sent_in jid t chat = not (
      is_empty
        (select (λ m. is_in (senders jids jid) m.sender && text_eq m.chat_jid chat) t.messages))

  unfoldable pub contact_chats : Bool → Text → ℕ → ℕ → Db Tables → Db Tables × Answer (List ChatOut)
  unfolding query query_chats is_in sides senders text_lt or_default select text_eq
  contact_chats is_open jid limit page = if_open is_open (
      query_chats false (λ t c. is_in (sides jids jid) c.jid || sent_in jid t c.jid) recent
        (some (or_default limit 20, page)))
