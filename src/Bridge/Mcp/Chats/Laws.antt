-- ===== src/Bridge/Mcp/Chats/Laws.antt =====
-- What a list of chats holds.
use whatsmcp.Base.{
  ℕ, ◌*◌, ◌≤◌, ◌≡◌, refl, Bool, false, not, Option, none, some, List, [], ◌∷◌, Text, codes, text_eq,
  length, length-take_le, take, drop, All, Bool-cases, inl, inr, arith, by_arms, if◌then◌else◌,
}
use whatsmcp.Sql.{Db, query, select, order_by}
use whatsmcp.Sql.Rows.{OfOption, query-OfOption, All-take, All-drop}
use whatsmcp.Bridge.Store.{Tables, ChatRow, MessageRow}
use whatsmcp.Bridge.Jids.{JidMap}
use whatsmcp.Bridge.Mcp.{Engine, Answer, refuse, store_not_open, is_in, or_default, answered}
use whatsmcp.Bridge.Mcp.Privacy.{OfAnswer}
use whatsmcp.Bridge.Mcp.Chats.{
  ChatOut, join_last, chat_out, scan_chats, query_chats, ListChatsIn, recent, by_name, chat_matches,
  if_open, find_chats, list_chats,
}

-- No two chats of the list have one JID.
abbrev pub IsDistinct : List ChatOut → Type 0
IsDistinct [] = Unit
IsDistinct (c ∷ cs) = All (λ d. text_eq c.jid d.jid ≡ false) cs × IsDistinct cs

-- The chat shows no message.
abbrev pub IsQuiet : ChatOut → Type 0
IsQuiet c = (c.last_message ≡ []) × (c.last_sender ≡ []) × (c.last_is_from_me ≡ none)

All-imp {ℓ κ μ} :
    {A : Type ℓ} (P : A → Type κ) (Q : A → Type μ) (xs : List A)
    → ((x : A) → P x → Q x)
    → All P xs
    → All Q xs
All-imp P Q [] f h = tt
All-imp P Q (x ∷ xs) f (hx, h) = (f x hx, All-imp P Q xs f h)

-- What is scanned behind a set of chats is of no chat of the set.
scan_chats_new :
    (seen : List Text) (rows : List (ChatRow × Option MessageRow))
    → All (λ d. is_in seen d.jid ≡ false) (scan_chats seen rows)
unfolding scan_chats chat_out is_in
scan_chats_new seen [] = tt
scan_chats_new seen ((c, m) ∷ rows) = elim (Bool-cases (is_in seen c.jid)) [
  | inl known ↦ rw known (scan_chats_new seen rows)
  | inr new ↦ rw new (
    new,
    All-imp (λ d. is_in (c.jid ∷ seen) d.jid ≡ false) (λ d. is_in seen d.jid ≡ false)
        (scan_chats (c.jid ∷ seen) rows) (λ d h. ground arith) (scan_chats_new (c.jid ∷ seen) rows),
  )
]

scan_chats-IsDistinct :
    (seen : List Text) (rows : List (ChatRow × Option MessageRow))
    → IsDistinct (scan_chats seen rows)
unfolding scan_chats chat_out is_in
scan_chats-IsDistinct seen [] = tt
scan_chats-IsDistinct seen ((c, m) ∷ rows) = elim (Bool-cases (is_in seen c.jid)) [
  | inl known ↦ rw known (scan_chats-IsDistinct seen rows)
  | inr new ↦ rw new (
    All-imp (λ d. is_in (c.jid ∷ seen) d.jid ≡ false) (λ d. text_eq c.jid d.jid ≡ false)
        (scan_chats (c.jid ∷ seen) rows) (λ d h. ground arith) (scan_chats_new (c.jid ∷ seen) rows),
    scan_chats-IsDistinct (c.jid ∷ seen) rows,
  )
]

length-scan_chats :
    (seen : List Text) (rows : List (ChatRow × Option MessageRow))
    → length (scan_chats seen rows) ≤ length rows
unfolding scan_chats
length-scan_chats seen [] = omega arith
length-scan_chats seen ((c, m) ∷ rows) =
    ground (arith, length-scan_chats seen rows, length-scan_chats (c.jid ∷ seen) rows)

abbrev NoMessage : ChatRow × Option MessageRow → Type 0
NoMessage (c, m) = m ≡ none

join_last-NoMessage :
    (messages : List MessageRow) (cs : List ChatRow) → All NoMessage (join_last false messages cs)
unfolding join_last
join_last-NoMessage messages [] = tt
join_last-NoMessage messages (c ∷ cs) = (refl, join_last-NoMessage messages cs)

scan_chats-IsQuiet :
    (seen : List Text) (rows : List (ChatRow × Option MessageRow))
    → All NoMessage rows
    → All IsQuiet (scan_chats seen rows)
unfolding scan_chats chat_out
scan_chats-IsQuiet seen [] h = tt
scan_chats-IsQuiet seen ((c, m) ∷ rows) (hm, h) = elim (Bool-cases (is_in seen c.jid)) [
  | inl known ↦ rw known (scan_chats-IsQuiet seen rows h)
  | inr new ↦ rw (new, hm) ((refl, refl, refl), scan_chats-IsQuiet (c.jid ∷ seen) rows h)
]

module _ (engine : Engine) (jids : JidMap) where
  if_open-OfAnswer {ℓ κ} :
      {A : Type ℓ} (P : A → Type κ) (is_open : Bool) (read : Tables → A) (db : Db Tables)
      → P (read db.tables)
      → OfAnswer P ((if_open engine jids is_open read db).1)
  if_open-OfAnswer {A = A} P is_open read db h =
      by_arms (λ (r : Db Tables × Answer A). OfAnswer P (r.1)) (not is_open)
        (db, refuse store_not_open) ((query read db).0, answered engine jids ((query read db).1))
        (λ _. tt) (λ _. of_value ((query read db).1) (query-OfOption P read db h))
    where
      of_value : (o : Option A) → OfOption P o → OfAnswer P (answered engine jids o)
      of_value none k = tt
      of_value (some a) k = k

  find_chats_page :
      (i : ListChatsIn) (t : Tables)
      → (length (find_chats engine jids i t) ≤ or_default i.limit 20)
        × IsDistinct (find_chats engine jids i t)
  unfolding find_chats query_chats
  find_chats_page i t =
      let limit : ℕ = or_default i.limit 20 in
      let chosen : List ChatRow =
        order_by
          (if text_eq i.sort_by (codes "name") then by_name engine jids else recent engine jids)
          (select (chat_matches engine jids i.query) t.chats) in
      let rows : List (ChatRow × Option MessageRow) =
        drop (i.page * limit) (join_last i.last_message t.messages chosen) in
      (
        omega (arith, length-scan_chats [] (take limit rows), length-take_le limit rows),
        scan_chats-IsDistinct [] (take limit rows),
      )

  find_chats-IsQuiet :
      (i : ListChatsIn) (t : Tables)
      → i.last_message ≡ false
      → All IsQuiet (find_chats engine jids i t)
  unfolding find_chats query_chats
  find_chats-IsQuiet i t h =
      let limit : ℕ = or_default i.limit 20 in
      let chosen : List ChatRow =
        order_by
          (if text_eq i.sort_by (codes "name") then by_name engine jids else recent engine jids)
          (select (chat_matches engine jids i.query) t.chats) in
      let rows : List (ChatRow × Option MessageRow) = join_last false t.messages chosen in
      rw h (
        scan_chats-IsQuiet [] (take limit (drop (i.page * limit) rows)) (
          All-take NoMessage limit (drop (i.page * limit) rows)
            (All-drop NoMessage (i.page * limit) rows (join_last-NoMessage t.messages chosen))))

  -- A page of `list_chats` has at most as many chats as its limit, 20 where none is given, and no chat
  -- twice.
  pub list_chats_page :
      (is_open : Bool) (i : ListChatsIn) (db : Db Tables)
      → OfAnswer
          (λ cs. (length cs ≤ or_default i.limit 20) × IsDistinct cs)
          ((list_chats engine jids is_open i db).1)
  unfolding list_chats
  list_chats_page is_open i db =
      if_open-OfAnswer (λ cs. (length cs ≤ or_default i.limit 20) × IsDistinct cs) is_open
        (find_chats engine jids i) db (find_chats_page i db.tables)

  -- Without `include_last_message`, `list_chats` shows no message.
  pub list_chats-IsQuiet :
      (is_open : Bool) (i : ListChatsIn) (db : Db Tables)
      → i.last_message ≡ false
      → OfAnswer (All IsQuiet) ((list_chats engine jids is_open i db).1)
  unfolding list_chats
  list_chats-IsQuiet is_open i db h =
      if_open-OfAnswer (All IsQuiet) is_open (find_chats engine jids i) db
        (find_chats-IsQuiet i db.tables h)
