-- ===== src/Bridge/Mcp/Privacy.antt =====
-- What a read of messages may show: the rows of one chat.
use whatsmcp.Base.{
  ℕ, ◌≡◌, ◌&&◌, Bool, true, not, Option, none, some, List, [], ◌∷◌, Text, is_empty, text_eq,
  text_eq_iff, text_eq_refl, trim_space, All, All-append, arith, by_arms, if◌then◌else◌,
}
use whatsmcp.Sql.{Db, query, first}
use whatsmcp.Sql.Rows.{
  OfOption, query-OfOption, All-select, All-order_by, All-take, All-drop, All-reverse,
}
use whatsmcp.Bridge.Store.{Tables, MessageRow}
use whatsmcp.Bridge.Jids.{JidMap, sides}
use whatsmcp.Bridge.Mcp.{
  Engine, ListMessagesIn, Answer, answer, refuse, chat_or_sender_required, store_not_open, is_in,
  asked_chat, matches, find_messages, rows_before, rows_after, around, splice, with_context,
  list_messages, listed, answered, message_context, in_context, near_of, beside, ptr_or, or_true,
  newest, oldest,
}

-- The row is of one of the chats.
abbrev pub InChats : List Text → MessageRow → Type 0
InChats chats r = is_in chats r.chat_jid ≡ true

-- What holds of the value of an answer, where there is one.
abbrev pub OfAnswer {ℓ κ} : {A : Type ℓ} → (A → Type κ) → Answer A → Type κ
OfAnswer P (refuse e) = Unit
OfAnswer P (answer a) = P a

abbrev pub Near : List Text → List MessageRow × List MessageRow → Type 0
Near chats (b, a) = All (InChats chats) b × All (InChats chats) a

abbrev pub Shown : Type 0
Shown = MessageRow × (List MessageRow × List MessageRow)

abbrev pub OwnChat : Shown → Type 0
OwnChat (r, near) = Near (r.chat_jid ∷ []) near

module _ (engine : Engine) (jids : JidMap) where
  rows_before-InChats :
      (chats : List Text) (r : MessageRow) (n : ℕ) (t : Tables)
      → InChats chats r
      → All (InChats chats) (rows_before engine jids r n t)
  unfolding rows_before
  rows_before-InChats chats r n t h = All-reverse (InChats chats) _ (
      All-take (InChats chats) n _ (
        All-order_by (InChats chats) (newest engine jids) _ (
          All-select (InChats chats) _ t.messages (λ m hit.
            let e : m.chat_jid ≡ r.chat_jid =
              (text_eq_iff m.chat_jid r.chat_jid).0 (ground arith) in
            rw e h))))

  rows_after-InChats :
      (chats : List Text) (r : MessageRow) (n : ℕ) (t : Tables)
      → InChats chats r
      → All (InChats chats) (rows_after engine jids r n t)
  unfolding rows_after
  rows_after-InChats chats r n t h = All-take (InChats chats) n _ (
      All-order_by (InChats chats) (oldest engine jids) _ (
        All-select (InChats chats) _ t.messages (λ m hit.
          let e : m.chat_jid ≡ r.chat_jid = (text_eq_iff m.chat_jid r.chat_jid).0 (ground arith) in
          rw e h)))

  near_of-Near :
      (chats : List Text) (asked again : Db Tables) (before after : Option (List MessageRow))
      → OfOption (All (InChats chats)) before
      → OfOption (All (InChats chats)) after
      → OfOption (Near chats) ((near_of engine jids asked before again after).1)
  near_of-Near chats asked again none after hb ha = tt
  near_of-Near chats asked again (some b) none hb ha = tt
  near_of-Near chats asked again (some b) (some a) hb ha = (hb, ha)

  around-Near :
      (chats : List Text) (r : MessageRow) (n_before n_after : ℕ) (db : Db Tables)
      → InChats chats r
      → OfOption (Near chats) ((around engine jids r n_before n_after db).1)
  unfolding around
  around-Near chats r n_before n_after db h =
      let asked : Db Tables = (query (rows_before engine jids r n_before) db).0 in
      near_of-Near chats asked ((query (rows_after engine jids r n_after) asked).0) _ _
        (query-OfOption (All (InChats chats)) (rows_before engine jids r n_before) db
          (rows_before-InChats chats r n_before db.tables h))
        (query-OfOption (All (InChats chats)) (rows_after engine jids r n_after) asked
          (rows_after-InChats chats r n_after asked.tables h))

  splice-InChats :
      (chats : List Text) (r : MessageRow) (asked done : Db Tables)
      (near : Option (List MessageRow × List MessageRow)) (rest : Option (List MessageRow))
      → InChats chats r
      → OfOption (Near chats) near
      → OfOption (All (InChats chats)) rest
      → OfOption (All (InChats chats)) ((splice engine jids r asked near done rest).1)
  splice-InChats chats r asked done none rest h hn hr = tt
  splice-InChats chats r asked done (some (b, a)) none h hn hr = tt
  splice-InChats chats r asked done (some (b, a)) (some rest) h (hb, ha) hr =
      All-append (InChats chats) b _ hb (h, All-append (InChats chats) a rest ha hr)

  with_context-InChats :
      (chats : List Text) (n_before n_after : ℕ) (rs : List MessageRow) (db : Db Tables)
      → All (InChats chats) rs
      → OfOption (All (InChats chats)) ((with_context engine jids n_before n_after rs db).1)
  unfolding with_context
  with_context-InChats chats n_before n_after [] db h = tt
  with_context-InChats chats n_before n_after (r ∷ rs) db (hr, h) =
      let asked : Db Tables = (around engine jids r n_before n_after db).0 in
      splice-InChats chats r asked ((with_context engine jids n_before n_after rs asked).0) _ _ hr
        (around-Near chats r n_before n_after db hr)
        (with_context-InChats chats n_before n_after rs asked h)

  find_messages-InChats :
      (i : ListMessagesIn) (t : Tables)
      → All (InChats (sides jids (asked_chat engine jids i))) (find_messages engine jids i t)
  unfolding find_messages matches
  find_messages-InChats i t =
      let P : MessageRow → Type 0 = InChats (sides jids (asked_chat engine jids i)) in
      All-take P _ _ (
        All-drop P _ _ (
          All-order_by P (newest engine jids) _
            (All-select P _ t.messages (λ r hit. ground arith))))

  answered-OfAnswer {ℓ κ} :
      {A : Type ℓ} (P : A → Type κ) (o : Option A)
      → OfOption P o
      → OfAnswer P (answered engine jids o)
  answered-OfAnswer P none h = tt
  answered-OfAnswer P (some a) h = h

  listed-InChats :
      (chats : List Text) (i : ListMessagesIn) (found : Option (List MessageRow)) (db : Db Tables)
      → OfOption (All (InChats chats)) found
      → OfAnswer (All (InChats chats)) ((listed engine jids i found db).1)
  listed-InChats chats i none db h = tt
  listed-InChats chats i (some found) db h =
      by_arms (λ (r : Db Tables × Answer (List MessageRow)). OfAnswer (All (InChats chats)) (r.1))
        (or_true i.include_context) _ _
        (λ _. answered-OfAnswer (All (InChats chats)) _ (with_context-InChats chats _ _ found db h))
        (λ _. h)

  -- Whatever is asked for, every message that `list_messages` shows, those around a match included,
  -- is of the one chat asked for, under its phone number or its hidden user; with no chat given, of
  -- the direct chat with the sender.
  pub list_messages-InChats :
      (is_open : Bool) (i : ListMessagesIn) (db : Db Tables)
      → OfAnswer
          (All (InChats (sides jids (asked_chat engine jids i))))
          ((list_messages engine jids is_open i db).1)
  unfolding list_messages
  list_messages-InChats is_open i db =
      let chats : List Text = sides jids (asked_chat engine jids i) in
      let P : Db Tables × Answer (List MessageRow) → Type 0 =
        λ r. OfAnswer (All (InChats chats)) (r.1) in
      let found : Db Tables × Option (List MessageRow) = query (find_messages engine jids i) db in
      let read : Db Tables × Answer (List MessageRow) = listed engine jids i (found.1) (found.0) in
      by_arms P (is_empty (trim_space i.chat_jid) && is_empty (trim_space i.sender_phone))
        (db, refuse chat_or_sender_required)
        (if not is_open then (db, refuse store_not_open) else read) (λ _. tt)
        (λ _.
          by_arms P (not is_open) (db, refuse store_not_open) read (λ _. tt)
            (λ _. listed-InChats chats i (found.1) (found.0) (
              query-OfOption (All (InChats chats)) (find_messages engine jids i) db
                (find_messages-InChats i db.tables))))

  beside-OfAnswer :
      (r : MessageRow) (near : Option (List MessageRow × List MessageRow))
      → OfOption (Near (r.chat_jid ∷ [])) near
      → OfAnswer OwnChat (beside engine jids r near)
  beside-OfAnswer r none h = tt
  beside-OfAnswer r (some near) h = h

  in_context-OwnChat :
      (id : Text) (n_before n_after : ℕ) (row : Option (Option MessageRow)) (db : Db Tables)
      → OfAnswer OwnChat ((in_context engine jids id n_before n_after row db).1)
  in_context-OwnChat id n_before n_after none db = tt
  in_context-OwnChat id n_before n_after (some none) db = tt
  in_context-OwnChat id n_before n_after (some (some r)) db = beside-OfAnswer r _ (
      around-Near (r.chat_jid ∷ []) r n_before n_after db
        (unfold is_in in ground (arith, text_eq_refl r.chat_jid)))

  -- The messages that are shown around one are all of its own chat.
  pub message_context-OwnChat :
      (is_open : Bool) (id : Text) (n_before n_after : Option ℕ) (db : Db Tables)
      → OfAnswer OwnChat ((message_context engine jids is_open id n_before n_after db).1)
  unfolding message_context
  message_context-OwnChat is_open id n_before n_after db =
      let row : Db Tables × Option (Option MessageRow) =
        query (λ t. first (λ m. text_eq m.id id) t.messages) db in
      by_arms (λ (r : Db Tables × Answer Shown). OfAnswer OwnChat (r.1)) (not is_open)
        (db, refuse store_not_open)
        (in_context engine jids id (ptr_or n_before 5) (ptr_or n_after 5) (row.1) (row.0)) (λ _. tt)
        (λ _. in_context-OwnChat id (ptr_or n_before 5) (ptr_or n_after 5) (row.1) (row.0))
