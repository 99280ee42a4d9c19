-- ===== src/Bridge/Store/Rows.antt =====
-- What the store's calls write, read back, where the engine refuses no statement.
use whatsmcp.Base.{
  ℕ, ◌≡◌, refl, sym, ap, ◌∙◌, Bool, true, false, ◌&&◌, Option, none, some, List, [], ◌∷◌, Text,
  is_empty, is_some, Bool-cases, Option-cases, inl, inr, pair_key, text_key, same, same_refl,
  is_empty-eq-true, arith, if◌then◌else◌,
}
use whatsmcp.Sql.{Db, exec, query, first, update, has_key, insert_or_replace}
use whatsmcp.Sql.Laws.{first-insert_or_replace, first-update_self}
pub use whatsmcp.Sql.Keyed.{option_map}
use whatsmcp.Bridge.Media.{MediaInfo}
use whatsmcp.Bridge.Store.{
  Tables, ChatRow, MessageRow, message_row, message_key, chat_key, put_message, change_messages,
  lacks_content, set_content, set_direct_path, store_message, fill_history_message,
  store_direct_path, get_direct_path, get_media_info,
}

-- No statement is refused.
abbrev pub Healthy : Db Tables → Type 0
Healthy db = db.faults ≡ []

abbrev pub find_message : Text × Text → Tables → Option MessageRow
find_message k t = first (has_key message_key k) t.messages

-- An update that keeps the test `p` is seen by it on the rows that the update means.
pub first-update {ℓ} :
    {R : Type ℓ} (p q : R → Bool) (f : R → R) (t : List R)
    → ((r : R) → p (f r) ≡ p r)
    → first p (update q f t) ≡ option_map (λ r. if q r then f r else r) (first p t)
unfolding first update
first-update p q f [] kept = refl
first-update p q f (r ∷ t) kept = ground (arith, kept r, first-update p q f t kept)

pub exec-Healthy :
    (stmt : Tables → Option Tables) (db : Db Tables) (t : Tables)
    → Healthy db
    → stmt db.tables ≡ some t
    → exec stmt db ≡ (record { tables = t; faults = [] }, true)
unfolding exec
exec-Healthy stmt db t h e = rw (h, e) refl

-- What a stored message makes of the rows.
pub put_message_lem :
    (r : MessageRow) (t : Tables) (c : ChatRow)
    → first (has_key chat_key r.chat_jid) t.chats ≡ some c
    → (next : Tables) × (put_message r t ≡ some next)
      × (next.chats ≡ t.chats)
      × ((k : Text × Text)
          → find_message k next ≡ (if same (message_key r) k then some r else find_message k t))
unfolding put_message
put_message_lem r t c has = (
  record t { messages = insert_or_replace message_key r t.messages },
  rw (has, put_message) refl,
  refl,
  λ k. first-insert_or_replace message_key k r t.messages,
)

-- With no statement refused, a message with a content or a medium whose chat has its row is stored:
-- each of its seven media columns is read back as it was written, and its direct path is empty until
-- it is stored, since `INSERT OR REPLACE` drops the one that an earlier row had.
pub store_message-get_media_info :
    (id chat_jid sender content : Text) (timestamp : ℕ) (mine : Bool) (info : MediaInfo)
    (quoted_id quoted_text : Text) (db : Db Tables) (c : ChatRow)
    → Healthy db
    → first (has_key chat_key chat_jid) db.tables.chats ≡ some c
    → is_empty content && is_empty info.media_type ≡ false
    → let (next, stored) =
        store_message id chat_jid sender content timestamp mine info quoted_id quoted_text db in
      (stored ≡ true)
      × ((get_media_info id chat_jid next).1 ≡ some info)
      × ((get_direct_path id chat_jid next).1 ≡ [])
unfolding store_message get_media_info get_direct_path query
store_message-get_media_info id chat_jid sender content timestamp mine info quoted_id quoted_text db
      c h has some_content =
    let r : MessageRow =
      message_row id chat_jid sender content timestamp mine info quoted_id quoted_text in
    let (next, put, _, finds) = put_message_lem r db.tables c has in
    let row : find_message (id, chat_jid) next ≡ some r =
      rw (finds (id, chat_jid)) (rw (same_refl {K = Text × Text} (id, chat_jid)) refl) in
    rw (some_content, exec-Healthy (put_message r) db next h put) (refl, rw row refl, rw row refl)

-- A direct path that is stored for a message is read back, and nothing is stored for an empty one.
pub store_direct_path-get_direct_path :
    (id chat_jid path : Text) (db : Db Tables) (r : MessageRow)
    → Healthy db
    → find_message (id, chat_jid) db.tables ≡ some r
    → let (next, stored) = store_direct_path id chat_jid path db in
      (stored ≡ true)
      × ((get_direct_path id chat_jid next).1
          ≡ (if is_empty path then (get_direct_path id chat_jid db).1 else path))
unfolding store_direct_path get_direct_path query
store_direct_path-get_direct_path id chat_jid path db r h has = elim (Bool-cases (is_empty path)) [
  | inl nothing ↦ rw nothing (refl, refl)
  | inr stored ↦
      let p : MessageRow → Bool = has_key message_key (id, chat_jid) in
      let row : first p (update p (set_direct_path path) db.tables.messages)
          ≡ some (set_direct_path path r) =
        first-update_self p (set_direct_path path) db.tables.messages r (λ _. refl) has in
      rw (stored, exec-Healthy (change_messages p (set_direct_path path)) db _ h refl)
        (refl, rw row refl)
]

-- What a history message does to the row it finds: only missing content is filled in.
abbrev pub filled : Text → MessageRow → MessageRow
filled content r = if is_empty r.content then set_content content r else r

abbrev pub after_history : Text × Text → Text → MessageRow → MessageRow
after_history k content r = if same (message_key r) k then filled content r else r

option_map_id {ℓ} :
    {A : Type ℓ} (f : A → A) (o : Option A) → ((a : A) → o ≡ some a → f a ≡ a) → option_map f o ≡ o
option_map_id f none h = refl
option_map_id f (some a) h = ap some (h a refl)

option_map_ext {ℓ} :
    {A : Type ℓ} (f g : A → A) (o : Option A)
    → ((a : A) → f a ≡ g a)
    → option_map f o ≡ option_map g o
option_map_ext f g none h = refl
option_map_ext f g (some a) h = ap some (h a)

first_hit {ℓ} : {R : Type ℓ} (p : R → Bool) (t : List R) (r : R) → first p t ≡ some r → p r ≡ true
unfolding first
first_hit p [] r h = cc
first_hit p (x ∷ t) r h = elim (Bool-cases (p x)) [
  | inl hit ↦ ground arith
  | inr miss ↦ first_hit p t r (ground arith)
]

set_content_same : (c : Text) (r : MessageRow) → r.content ≡ c → set_content c r ≡ r
set_content_same c r e = ap (λ d. set_content d r) (sym e)

filled_nothing : (content : Text) (r : MessageRow) → is_empty content ≡ true → filled content r ≡ r
filled_nothing (c ∷ cs) r e = cc
filled_nothing [] r e = elim (Bool-cases (is_empty r.content)) [
  | inl bare ↦ rw bare (set_content_same [] r (is_empty-eq-true r.content bare))
  | inr full ↦ rw full refl
]

after_history_nothing :
    (k : Text × Text) (content : Text) (r : MessageRow)
    → is_empty content ≡ true
    → after_history k content r ≡ r
after_history_nothing k content r e = elim (Bool-cases (same (message_key r) k)) [
  | inl hit ↦ rw hit (filled_nothing content r e)
  | inr miss ↦ rw miss refl
]

after_history_unmet :
    (k key : Text × Text) (content : Text) (t : Tables)
    → find_message key t ≡ none
    → option_map (after_history key content) (find_message k t) ≡ find_message k t
after_history_unmet k key content t missing = option_map_id _ (find_message k t) (λ r has.
    elim (Bool-cases (same (message_key r) key)) [
      | inl hit ↦
          let at_key : message_key r ≡ key = (pair_key.beq_iff (message_key r) key).0 hit in
          let at_k : message_key r ≡ k =
            (pair_key.beq_iff (message_key r) k).0 (first_hit _ _ r has) in
          absurd cc
      | inr miss ↦ rw miss refl
    ])

-- `FillHistoryMessage` says whether the message is stored. If it is, its row gets the content only
-- where it has none, and keeps every other column; no other message and no chat changes.
pub fill_history_message_lem :
    (id chat_jid content : Text) (db : Db Tables)
    → Healthy db
    → let (next, was_stored) = fill_history_message id chat_jid content db in
      (was_stored ≡ is_some (find_message (id, chat_jid) db.tables))
      × Healthy next
      × (next.tables.chats ≡ db.tables.chats)
      × ((k : Text × Text)
          → find_message k next.tables
            ≡ option_map (after_history (id, chat_jid) content) (find_message k db.tables))
unfolding fill_history_message query exec
fill_history_message_lem id chat_jid content db h =
    elim (Option-cases (find_message (id, chat_jid) db.tables)) [
      | inl missing ↦
          rw (h, missing)
            (
              refl,
              refl,
              refl,
              λ k. sym (after_history_unmet k (id, chat_jid) content db.tables missing),
            )
      | inr (r, has) ↦ elim (Bool-cases (is_empty content)) [
        | inl nothing ↦
            rw (h, has, nothing)
              (
                refl,
                refl,
                refl,
                λ k. sym (
                    option_map_id _ (find_message k db.tables)
                      (λ x _. after_history_nothing (id, chat_jid) content x nothing)),
              )
        | inr some_content ↦
            rw (h, has, some_content)
              (
                refl,
                refl,
                refl,
                λ k.
                    first-update (has_key message_key k) (lacks_content id chat_jid)
                      (set_content content) db.tables.messages (λ _. refl)
                    ∙ option_map_ext _ _ (find_message k db.tables) (λ x. ground arith),
              )
      ]
    ]
