-- ===== src/Wabridge/Repos/Batch.antt =====
-- When a batch of messages is saved.
use whatsmcp.Base.{
  ◌≡◌, refl, ap, arith, Bool, true, false, ◌&&◌, Option, none, some, List, [], ◌∷◌, is_some,
  Option-cases, Bool-cases, inl, inr, text_key, pair_key, same, Text, if◌then◌else◌,
}
use whatsmcp.Sql.{Db, exec, exec_all, transaction, first, has_key, insert_or_replace}
use whatsmcp.Sql.Laws.{first-insert_or_replace}
use whatsmcp.Sql.Keyed.{exec-runs, exec_all-runs}
use whatsmcp.Domain.Message.{Message}
use whatsmcp.Bridge.Store.{ChatRow, chat_key}
use whatsmcp.Wabridge.Repos.{
  WaTables, WaMessageRow, wa_message_key, message_args, insert_message, insert_all, save_batch,
}

-- The chat of the message has its row.
abbrev pub is_known : List ChatRow → Message → Bool
is_known chats m = is_some (first (has_key chat_key ((message_args m).chat_jid)) chats)

abbrev pub all_known : List ChatRow → List Message → Bool
all_known chats [] = true
all_known chats (m ∷ ms) = is_known chats m && all_known chats ms

abbrev pub healthy : WaTables → Db WaTables
healthy t = record { tables = t; faults = [] }

-- The statements of a batch on tables where the engine refuses none.
abbrev Ran : List ChatRow → List Message → Db WaTables × Bool → Type 0
Ran chats ms r = (r.1 ≡ all_known chats ms) × (r.0.faults ≡ [])

exec-refused :
    (stmt : WaTables → Option WaTables) (t : WaTables)
    → stmt t ≡ none
    → exec stmt (healthy t) ≡ (healthy t, false)
unfolding exec
exec-refused stmt t e = rw e refl

exec_all-Ran :
    (ms : List Message) (t : WaTables) → Ran t.chats ms (exec_all (insert_all ms) (healthy t))
unfolding exec_all insert_message
exec_all-Ran [] t = (refl, refl)
exec_all-Ran (m ∷ ms) t =
    let r : WaMessageRow = message_args m in
    let next : WaTables = record t { messages = insert_or_replace wa_message_key r t.messages } in
    elim (Option-cases (first (has_key chat_key r.chat_jid) t.chats)) [
      | inl missing ↦
          rw (exec-refused (insert_message r) t (rw (missing, insert_message) refl), missing)
            (refl, refl)
      | inr (c, there) ↦
          rw
            (
              exec-runs (insert_message r) (healthy t) next refl (rw (there, insert_message) refl),
              there,
            )
            (exec_all-Ran ms next)
    ]

-- The preparation runs where no statement is refused.
exec_all-some :
    (stmts : List (WaTables → Option WaTables)) (t : WaTables)
    → exec_all (some ∷ stmts) (healthy t) ≡ exec_all stmts (healthy t)
unfolding exec_all exec
exec_all-some stmts t = refl

-- What the engine finds under the key once the messages are saved one behind the other: the last of
-- those with this key, or else the row that was there.
abbrev pub last_under : Text × Text → List Message → Option WaMessageRow → Option WaMessageRow
last_under k [] old = old
last_under k (m ∷ ms) old =
    last_under k ms
      (if same (wa_message_key (message_args m)) k then some (message_args m) else old)

abbrev find_row : Text × Text → WaTables → Option WaMessageRow
find_row k t = first (has_key wa_message_key k) t.messages

-- A batch that is saved has its messages in the table, beside the rows that were there; another one has
-- left the tables.
abbrev pub SavedIf : (done : Bool) → List Message → WaTables → WaTables → Type 0
SavedIf true ms t after =
    (after.chats ≡ t.chats)
    × ((k : Text × Text) → find_row k after ≡ last_under k ms (find_row k t))
SavedIf false ms t after = after ≡ t

known_missing : (a b : Bool) → a ≡ false → (a && b) ≡ true → ⊥
known_missing a b missing known = ground arith

known_rest : (a b : Bool) → (a && b) ≡ true → b ≡ true
known_rest a b known = ground arith

exec_all-SavedIf :
    (ms : List Message) (t : WaTables)
    → all_known t.chats ms ≡ true
    → SavedIf true ms t ((exec_all (insert_all ms) (healthy t)).0.tables)
unfolding exec_all insert_message
exec_all-SavedIf [] t known = (refl, λ k. refl)
exec_all-SavedIf (m ∷ ms) t known =
    let r : WaMessageRow = message_args m in
    let next : WaTables = record t { messages = insert_or_replace wa_message_key r t.messages } in
    elim (Option-cases (first (has_key chat_key r.chat_jid) t.chats)) [
      | inl missing ↦
          absurd
            (known_missing (is_known t.chats m) (all_known t.chats ms) (ap is_some missing) known)
      | inr (c, there) ↦
          let (chats, rows) =
            exec_all-SavedIf ms next
              (known_rest (is_known t.chats m) (all_known t.chats ms) known) in
          rw
            (exec_all-runs (insert_message r) (insert_all ms) (healthy t) (healthy next) (
              exec-runs (insert_message r) (healthy t) next refl (rw (there, insert_message) refl)))
            (chats, λ k. rw (← first-insert_or_replace wa_message_key k r t.messages) (rows k))
    ]

-- With no statement refused, a batch is saved exactly if the chat of each of its messages has its row.
-- Then the last of its messages under a key is the row of this key, and all else is as it was; if it
-- is not saved, it changes nothing.
pub save_batch_lem :
    (ms : List Message) (t : WaTables)
    → ((save_batch ms (healthy t)).1 ≡ all_known t.chats ms)
      × SavedIf (all_known t.chats ms) ms t ((save_batch ms (healthy t)).0.tables)
unfolding save_batch transaction
save_batch_lem [] t = (refl, (refl, λ k. refl))
save_batch_lem (m ∷ ms) t =
    let ran : Db WaTables × Bool = exec_all (insert_all (m ∷ ms)) (healthy t) in
    let (done, clean) = exec_all-Ran (m ∷ ms) t in
    rw
      (
        exec_all-some (insert_all (m ∷ ms)) t,
        exec-runs some (ran.0) (ran.0.tables) clean refl,
        done,
      )
      (elim (Bool-cases (all_known t.chats (m ∷ ms))) [
        | inl known ↦ rw known (refl, exec_all-SavedIf (m ∷ ms) t known)
        | inr missing ↦ rw missing (refl, refl)
      ])
