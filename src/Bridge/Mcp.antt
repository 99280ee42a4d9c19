-- ===== src/Bridge/Mcp.antt =====
-- The reads of the MCP server in whatsapp-bridge/mcp.go: messages, their context, and the guard that
-- binds them to one chat. Times are compared as the texts that SQLite holds.
pub mod Chats
pub mod Privacy
pub mod Shown
pub mod Lines
pub mod Status
pub mod Tools
use whatsmcp.Base.{
  ℕ, zero, suc, ◌+◌, ◌*◌, Bool, true, false, not, ◌&&◌, ◌||◌, ◌==◌, Option, none, some, List, [],
  ◌∷◌, ◌++◌, map, Text, codes, is_empty, text_eq, trim_space, take, drop, ltb, if◌then◌else◌,
}
use mathlib.Core.List.{reverse}
use whatsmcp.Sql.{Db, query, first, select, order_by}
use whatsmcp.Bridge.Store.{Tables, MessageRow}
use whatsmcp.Bridge.Jids.{JidMap, sides, senders}

-- What SQLite and its driver do with texts: the stored form of a time, `LIKE` of a pattern and a
-- text, and `LOWER`.
pub record Engine : Type 0 where
  pub stored_time : ℕ → Text
  pub like : Text → Text → Bool
  pub lower : Text → Text

-- `<` on texts.
unfoldable pub text_lt : Text → Text → Bool
text_lt s [] = false
text_lt [] (_ ∷ _) = true
text_lt (c ∷ s) (d ∷ t) = ltb c d || (c == d && text_lt s t)

-- `IN (…)`.
unfoldable pub is_in : List Text → Text → Bool
unfolding text_eq
is_in [] t = false
is_in (s ∷ ss) t = text_eq s t || is_in ss t

-- An `int` that is not positive reads as the default.
unfoldable pub or_default : ℕ → ℕ → ℕ
or_default v d = if v == 0 then d else v

-- `none` is nil or negative.
abbrev pub ptr_or : Option ℕ → ℕ → ℕ
ptr_or none d = d
ptr_or (some v) d = v

-- A page before the first is the first.
pub record ListMessagesIn : Type 0 where
  pub after : Text
  pub before : Text
  pub sender_phone : Text
  pub chat_jid : Text
  pub query : Text
  pub limit : ℕ
  pub page : ℕ
  pub include_context : Option Bool
  pub context_before : Option ℕ
  pub context_after : Option ℕ

pub data McpError : Type 0 where
  chat_or_sender_required : McpError
  store_not_open : McpError
  engine_failed : McpError
  message_unknown : Text → McpError

pub data Answer {ℓ} (A : Type ℓ) : Type ℓ where
  answer : A → Answer A
  refuse : McpError → Answer A

-- `strings.Replace(strings.TrimSpace(s), "T", " ", 1)`.
unfoldable pub first_t_to_space : Text → Text
first_t_to_space [] = []
first_t_to_space (c ∷ s) = let rest = first_t_to_space s in if c == b'T' then b' ' ∷ s else c ∷ rest

unfoldable pub iso_text : Text → Text
unfolding trim_space first_t_to_space
iso_text s = first_t_to_space (trim_space s)

abbrev pub or_true : Option Bool → Bool
or_true none = true
or_true (some b) = b

module _ (engine : Engine) (jids : JidMap) where
  abbrev pub time_of : MessageRow → Text
  time_of r = engine.stored_time r.timestamp

  -- `ORDER BY m.timestamp DESC` and `ASC`.
  abbrev pub newest : MessageRow → MessageRow → Bool
  newest r s = not (text_lt (time_of r) (time_of s))

  abbrev pub oldest : MessageRow → MessageRow → Bool
  oldest r s = not (text_lt (time_of s) (time_of r))

  -- The chat that is read: a sender alone is the direct chat.
  abbrev pub asked_chat : ListMessagesIn → Text
  asked_chat i = if is_empty (trim_space i.chat_jid) then i.sender_phone else i.chat_jid

  -- The conditions of the `WHERE`, each where its field is given.
  unfoldable pub matches : ListMessagesIn → MessageRow → Bool
  unfolding is_in text_lt iso_text sides senders trim_space
  matches i r =
      is_in (sides jids (asked_chat i)) r.chat_jid
      && (is_empty i.sender_phone || is_in (senders jids i.sender_phone) r.sender)
      && (is_empty i.after || text_lt (iso_text i.after) (time_of r))
      && (is_empty i.before || text_lt (time_of r) (iso_text i.before))
      && (is_empty i.query
          || engine.like (engine.lower (codes "%" ++ (i.query ++ codes "%")))
              (engine.lower r.content))

  -- The messages just before and just after one, in its own chat, in time order; `none` is an error.
  unfoldable pub rows_before : MessageRow → ℕ → Tables → List MessageRow
  unfolding select order_by text_eq text_lt
  rows_before r n t = reverse (
      take n (
        order_by newest (
          select (λ m. text_eq m.chat_jid r.chat_jid && text_lt (time_of m) (time_of r))
            t.messages)))

  unfoldable pub rows_after : MessageRow → ℕ → Tables → List MessageRow
  unfolding select order_by text_eq text_lt
  rows_after r n t = take n (
      order_by oldest
        (select (λ m. text_eq m.chat_jid r.chat_jid && text_lt (time_of r) (time_of m)) t.messages))

  abbrev pub both :
      Option (List MessageRow)
      → Option (List MessageRow)
      → Option (List MessageRow × List MessageRow)
  both none _ = none
  both (some b) none = none
  both (some b) (some a) = some (b, a)

  abbrev pub near_of :
      Db Tables
      → Option (List MessageRow)
      → Db Tables
      → Option (List MessageRow)
      → Db Tables × Option (List MessageRow × List MessageRow)
  near_of asked none again after = (asked, none)
  near_of asked (some b) again after = (again, both (some b) after)

  unfoldable pub around :
      MessageRow → ℕ → ℕ → Db Tables → Db Tables × Option (List MessageRow × List MessageRow)
  unfolding query rows_before rows_after
  around r n_before n_after db =
      let (asked, before) = query (rows_before r n_before) db in
      let (again, after) = query (rows_after r n_after) asked in near_of asked before again after

  -- A row between its neighbours, before the rest; an error ends the loop.
  abbrev pub splice :
      MessageRow
      → Db Tables
      → Option (List MessageRow × List MessageRow)
      → Db Tables
      → Option (List MessageRow)
      → Db Tables × Option (List MessageRow)
  splice r asked none done rest = (asked, none)
  splice r asked (some (b, a)) done none = (done, none)
  splice r asked (some (b, a)) done (some rest) = (done, some (b ++ (r ∷ a ++ rest)))

  -- Every row found with the rows around it.
  unfoldable pub with_context :
      ℕ → ℕ → List MessageRow → Db Tables → Db Tables × Option (List MessageRow)
  unfolding around
  with_context n_before n_after [] db = (db, some [])
  with_context n_before n_after (r ∷ rs) db =
      let (asked, near) = around r n_before n_after db in
      let (done, rest) = with_context n_before n_after rs asked in splice r asked near done rest

  unfoldable pub find_messages : ListMessagesIn → Tables → List MessageRow
  unfolding matches select order_by or_default
  find_messages i t =
      let limit = or_default i.limit 20 in
      take limit (drop (i.page * limit) (order_by newest (select (matches i) t.messages)))

  abbrev pub answered {ℓ} : {A : Type ℓ} → Option A → Answer A
  answered none = refuse engine_failed
  answered (some a) = answer a

  abbrev pub listed :
      ListMessagesIn → Option (List MessageRow) → Db Tables → Db Tables × Answer (List MessageRow)
  listed i none db = (db, refuse engine_failed)
  listed i (some found) db =
      if or_true i.include_context
      then (let (done, rows) =
            with_context (ptr_or i.context_before 1) (ptr_or i.context_after 1) found db in
          (done, answered rows))
      else (db, answer found)

  -- The rows of `toolListMessages`, before they are printed. The Boolean: the store is open.
  unfoldable pub list_messages :
      Bool → ListMessagesIn → Db Tables → Db Tables × Answer (List MessageRow)
  unfolding query find_messages with_context trim_space
  list_messages is_open i db =
      if is_empty (trim_space i.chat_jid) && is_empty (trim_space i.sender_phone)
      then (db, refuse chat_or_sender_required)
      else if not is_open
      then (db, refuse store_not_open)
      else (let (asked, found) = query (find_messages i) db in listed i found asked)

  -- The newest message of the direct chat, if there is one.
  unfoldable pub last_interaction : Bool → Text → Db Tables → Db Tables × Answer (Option MessageRow)
  unfolding query select order_by is_in sides
  last_interaction is_open jid db =
      if not is_open
      then (db, refuse store_not_open)
      else (let (asked, row) =
            query
              (λ t.
                first (λ _. true)
                  (order_by newest (select (λ m. is_in (sides jids jid) m.chat_jid) t.messages)))
              db in
          (asked, answered row))

  abbrev pub beside :
      MessageRow
      → Option (List MessageRow × List MessageRow)
      → Answer (MessageRow × (List MessageRow × List MessageRow))
  beside r none = refuse engine_failed
  beside r (some near) = answer (r, near)

  abbrev pub in_context :
      Text
      → ℕ
      → ℕ
      → Option (Option MessageRow)
      → Db Tables
      → Db Tables × Answer (MessageRow × (List MessageRow × List MessageRow))
  in_context id n_before n_after none db = (db, refuse engine_failed)
  in_context id n_before n_after (some none) db = (db, refuse (message_unknown id))
  in_context id n_before n_after (some (some r)) db =
      let (done, near) = around r n_before n_after db in (done, beside r near)

  unfoldable pub message_context :
      Bool
      → Text
      → Option ℕ
      → Option ℕ
      → Db Tables
      → Db Tables × Answer (MessageRow × (List MessageRow × List MessageRow))
  unfolding query first around text_eq
  message_context is_open id n_before n_after db =
      if not is_open
      then (db, refuse store_not_open)
      else (let (asked, row) = query (λ t. first (λ m. text_eq m.id id) t.messages) db in
          in_context id (ptr_or n_before 5) (ptr_or n_after 5) row asked)
