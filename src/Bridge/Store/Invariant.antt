-- ===== src/Bridge/Store/Invariant.antt =====
-- What holds of the tables between any two calls of the store: primary keys, and the foreign key.
use whatsmcp.Base.{
  ◌≡◌, refl, ap, Bool, true, false, Option, none, some, List, [], ◌∷◌, Text, is_some, All,
  All-append, Bool-cases, Option-cases, inl, inr, text_key, pair_key, same, if◌then◌else◌,
}
use whatsmcp.Sql.{
  Db, exec, first, delete, update, has_key, insert, insert_or_replace, insert_or_ignore, next_fault,
  commit,
}
use whatsmcp.Sql.Laws.{
  HasUniqueKeys, delete-HasUniqueKeys, update-HasUniqueKeys, insert_or_replace-HasUniqueKeys,
  insert_or_ignore-HasUniqueKeys, first-insert_or_replace, first-insert_or_ignore_old, delete-All,
  update-All, insert_or_ignore_new,
}
use whatsmcp.Bridge.Store.{
  Tables, ChatRow, MessageRow, chat_key, message_key, label_key, label_chat_key, raw_key,
  put_message, put_chat, add_chat, put_label, put_label_chat, OptionRow, LabelRow, LabelChatRow,
  RawRow,
}
use whatsmcp.Bridge.Store.Menus.{option_key, option_key_key, put_option, drop_options, put_raw}

-- The chat of the message has its row.
abbrev pub HasChat : List ChatRow → MessageRow → Type 0
HasChat chats m = is_some (first (has_key chat_key m.chat_jid) chats) ≡ true

-- No table has two rows of one primary key, and every message's chat has its row.
abbrev pub WellFormed : Tables → Type 0
WellFormed t =
    HasUniqueKeys chat_key t.chats
    × HasUniqueKeys message_key t.messages
    × HasUniqueKeys label_key t.labels
    × HasUniqueKeys label_chat_key t.label_chats
    × HasUniqueKeys raw_key t.raws
    × HasUniqueKeys option_key t.options
    × All (HasChat t.chats) t.messages

-- What holds of the tables that a statement leaves, where it succeeds.
abbrev pub Holds : {A : Type 0} → (A → Type 0) → Option A → Type 0
Holds P none = Unit
Holds P (some a) = P a

abbrev pub Keeps : (Tables → Option Tables) → Type 0
Keeps stmt = (t : Tables) → WellFormed t → Holds WellFormed (stmt t)

pub keeps_commit :
    (db : Db Tables) (o : Option Tables)
    → WellFormed db.tables
    → Holds WellFormed o
    → WellFormed ((commit db o).0.tables)
keeps_commit db none h k = h
keeps_commit db (some t) h k = k

pub exec-WellFormed :
    (stmt : Tables → Option Tables) (db : Db Tables)
    → Keeps stmt
    → WellFormed db.tables
    → WellFormed ((exec stmt db).0.tables)
unfolding exec
exec-WellFormed stmt db keeps h = elim (Bool-cases (next_fault db.faults)) [
  | inl refused ↦ rw refused h
  | inr runs ↦ rw runs (keeps_commit db (stmt db.tables) h (keeps db.tables h))
]

All-imp {ℓ κ μ} :
    {A : Type ℓ} (P : A → Type κ) (Q : A → Type μ) (xs : List A)
    → ((x : A) → P x → Q x)
    → All P xs
    → All Q xs
All-imp P Q [] f h = tt
All-imp P Q (x ∷ xs) f (hx, h) = (f x hx, All-imp P Q xs f h)

-- A replaced chat row is there, and so are the others.
HasChat-replace :
    (r : ChatRow) (chats : List ChatRow) (m : MessageRow)
    → HasChat chats m
    → HasChat (insert_or_replace chat_key r chats) m
HasChat-replace r chats m h =
    rw (first-insert_or_replace chat_key m.chat_jid r chats) (by_key (same r.jid m.chat_jid))
  where
    by_key :
        (b : Bool)
        → is_some (if b then some r else first (has_key chat_key m.chat_jid) chats) ≡ true
    by_key true = refl
    by_key false = h

HasChat-ignore :
    (r : ChatRow) (chats : List ChatRow) (m : MessageRow)
    → HasChat chats m
    → HasChat (insert_or_ignore chat_key r chats) m
HasChat-ignore r chats m h = elim (Option-cases (first (has_key chat_key m.chat_jid) chats)) [
  | inl missing ↦ absurd cc
  | inr (x, found) ↦ rw (first-insert_or_ignore_old chat_key m.chat_jid r chats x found) refl
]

insert-HasUniqueKeys :
    (r : OptionRow) (rows : List OptionRow)
    → HasUniqueKeys option_key rows
    → Holds (HasUniqueKeys option_key) (insert option_key r rows)
unfolding insert
insert-HasUniqueKeys r rows h =
    elim (Option-cases (first (has_key option_key (option_key r)) rows)) [
      | inl missing ↦
          rw (missing, insert)
            (rw (← insert_or_ignore_new option_key r rows missing)
              (insert_or_ignore-HasUniqueKeys option_key r rows h))
      | inr (x, found) ↦ rw (found, insert) tt
    ]

Holds_some : {A : Type 0} (P : A → Type 0) {o : Option A} (a : A) → o ≡ some a → Holds P o → P a
Holds_some P a e k = rw e at k

pub put_option-Keeps : (r : OptionRow) → Keeps (put_option r)
unfolding put_option
put_option-Keeps r t (chats, messages, labels, label_chats, raws, options, owned) =
    elim (Option-cases (insert option_key r t.options)) [
      | inl refused ↦ rw (refused, put_option) tt
      | inr (rows, done) ↦
          rw (done, put_option)
            (
              chats,
              messages,
              labels,
              label_chats,
              raws,
              Holds_some (HasUniqueKeys option_key) rows done
                  (insert-HasUniqueKeys r t.options options),
              owned,
            )
    ]

pub drop_options-Keeps : (id chat_jid : Text) → Keeps (drop_options id chat_jid)
unfolding drop_options
drop_options-Keeps id chat_jid t (chats, messages, labels, label_chats, raws, options, owned) = (
  chats,
  messages,
  labels,
  label_chats,
  raws,
  delete-HasUniqueKeys option_key _ t.options options,
  owned,
)

pub put_message-Keeps : (r : MessageRow) → Keeps (put_message r)
unfolding put_message
put_message-Keeps r t (chats, messages, labels, label_chats, raws, options, owned) =
    elim (Option-cases (first (has_key chat_key r.chat_jid) t.chats)) [
      | inl missing ↦ rw (missing, put_message) tt
      | inr (c, found) ↦
          rw (found, put_message)
            (
              chats,
              insert_or_replace-HasUniqueKeys message_key r t.messages messages,
              labels,
              label_chats,
              raws,
              options,
              unfold insert_or_replace in
                  All-append _ (delete (has_key message_key (message_key r)) t.messages) (r ∷ [])
                    (delete-All _ _ t.messages owned) (rw found refl, tt),
            )
    ]

-- A change of message rows that leaves their keys.
pub update-WellFormed :
    (p : MessageRow → Bool) (f : MessageRow → MessageRow) (t : Tables)
    → ((r : MessageRow) → message_key (f r) ≡ message_key r)
    → WellFormed t
    → WellFormed (record t { messages = update p f t.messages })
update-WellFormed p f t same_key (chats, messages, labels, label_chats, raws, options, owned) = (
  chats,
  update-HasUniqueKeys message_key p f t.messages same_key messages,
  labels,
  label_chats,
  raws,
  options,
  update-All (HasChat t.chats) p f t.messages (λ r has. rw (ap (λ k. k.1) (same_key r)) has) owned,
)

pub put_chat-Keeps : (r : ChatRow) → Keeps (put_chat r)
put_chat-Keeps r t (chats, messages, labels, label_chats, raws, options, owned) = (
  insert_or_replace-HasUniqueKeys chat_key r t.chats chats,
  messages,
  labels,
  label_chats,
  raws,
  options,
  All-imp _ _ t.messages (HasChat-replace r t.chats) owned,
)

pub add_chat-Keeps : (r : ChatRow) → Keeps (add_chat r)
add_chat-Keeps r t (chats, messages, labels, label_chats, raws, options, owned) = (
  insert_or_ignore-HasUniqueKeys chat_key r t.chats chats,
  messages,
  labels,
  label_chats,
  raws,
  options,
  All-imp _ _ t.messages (HasChat-ignore r t.chats) owned,
)

pub put_label-Keeps : (r : LabelRow) → Keeps (put_label r)
put_label-Keeps r t (chats, messages, labels, label_chats, raws, options, owned) = (
  chats,
  messages,
  insert_or_replace-HasUniqueKeys label_key r t.labels labels,
  label_chats,
  raws,
  options,
  owned,
)

pub put_label_chat-Keeps : (r : LabelChatRow) → Keeps (put_label_chat r)
put_label_chat-Keeps r t (chats, messages, labels, label_chats, raws, options, owned) = (
  chats,
  messages,
  labels,
  insert_or_replace-HasUniqueKeys label_chat_key r t.label_chats label_chats,
  raws,
  options,
  owned,
)

pub put_raw-Keeps : (r : RawRow) → Keeps (put_raw r)
put_raw-Keeps r t (chats, messages, labels, label_chats, raws, options, owned) = (
  chats,
  messages,
  labels,
  label_chats,
  insert_or_replace-HasUniqueKeys raw_key r t.raws raws,
  options,
  owned,
)
