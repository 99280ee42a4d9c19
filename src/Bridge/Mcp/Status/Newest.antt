-- ===== src/Bridge/Mcp/Status/Newest.antt =====
-- The last message that the connection status tells of.
use mathlib.Core.List.{Memᴰ}
use whatsmcp.Base.{
  ◌≡◌, refl, arith, true, false, Option, none, some, List, [], ◌∷◌, Text, All, Bool-cases, inl, inr,
  by_arms,
}
use whatsmcp.Sql.{Db, query, next_fault}
use whatsmcp.Bridge.Store.{Tables, MessageRow}
use whatsmcp.Bridge.Mcp.{Engine, text_lt}
use whatsmcp.Bridge.Mcp.Status.{Lookup, later_of, max_time, connection_status}

text_lt_irrefl : (s : Text) → text_lt s s ≡ false
unfolding text_lt
text_lt_irrefl [] = refl
text_lt_irrefl (c ∷ s) = ground (arith, text_lt_irrefl s)

text_lt_trans : (s t u : Text) → text_lt s t ≡ true → text_lt t u ≡ true → text_lt s u ≡ true
unfolding text_lt
text_lt_trans s [] u h k = cc
text_lt_trans s (d ∷ t) [] h k = cc
text_lt_trans [] (d ∷ t) (e ∷ u) h k = refl
text_lt_trans (c ∷ s) (d ∷ t) (e ∷ u) h k = ground (arith, text_lt_trans s t u)

-- Nothing before `t` is before `s`.
not_before : (s t u : Text) → text_lt s t ≡ true → text_lt s u ≡ false → text_lt t u ≡ false
not_before s t u h k = elim (Bool-cases (text_lt t u)) [
  | inl before ↦ let e : text_lt s u ≡ true = text_lt_trans s t u h before in cc
  | inr later ↦ later
]

module _ (engine : Engine) where
  -- No message is stored under a later time.
  abbrev pub IsLast : Text → List MessageRow → Type 0
  IsLast time ms = All (λ r. text_lt time (engine.stored_time r.timestamp) ≡ false) ms

  -- The time of a stored message, of which none is later; none where none is stored.
  abbrev pub IsNewest : Option Text → List MessageRow → Type 0
  IsNewest none ms = ms ≡ []
  IsNewest (some time) ms =
      ((r : MessageRow) × Memᴰ r ms × (engine.stored_time r.timestamp ≡ time)) × IsLast time ms

  later-IsLast :
      (s t : Text) (ms : List MessageRow) → text_lt s t ≡ true → IsLast s ms → IsLast t ms
  later-IsLast s t [] h l = tt
  later-IsLast s t (r ∷ ms) h (l, ls) =
      (not_before s t (engine.stored_time r.timestamp) h l, later-IsLast s t ms h ls)

  later_of-IsNewest :
      (r : MessageRow) (o : Option Text) (ms : List MessageRow)
      → IsNewest o ms
      → IsNewest (some (later_of engine (engine.stored_time r.timestamp) o)) (r ∷ ms)
  later_of-IsNewest r none ms h =
      ((r, Memᴰ.head refl, refl), (text_lt_irrefl (engine.stored_time r.timestamp), rw h tt))
  later_of-IsNewest r (some m) ms ((x, at, same), last) =
      let time : Text = engine.stored_time r.timestamp in
      by_arms (λ t. IsNewest (some t) (r ∷ ms)) (text_lt m time) time m
        (λ later.
          ((r, Memᴰ.head refl, refl), (text_lt_irrefl time, later-IsLast m time ms later last)))
        (λ not_later. ((x, Memᴰ.tail at, same), (not_later, last)))

  max_time-IsNewest : (ms : List MessageRow) → IsNewest (max_time engine ms) ms
  unfolding max_time
  max_time-IsNewest [] = refl
  max_time-IsNewest (r ∷ ms) = later_of-IsNewest r (max_time engine ms) ms (max_time-IsNewest ms)

-- With the store open and the engine not refusing, the connection status tells the stored time of a
-- message than which none is later, and none where no message is stored; it changes no table.
pub connection_status-IsNewest :
    (engine : Engine) (account : Option Text) (lookup : Lookup) (db : Db Tables)
    → next_fault db.faults ≡ false
    → let (after, status) = connection_status engine account lookup true db in
      IsNewest engine status.last_message_stored db.tables.messages × (after.tables ≡ db.tables)
unfolding connection_status query
connection_status-IsNewest engine account lookup db runs =
    rw runs (max_time-IsNewest engine db.tables.messages, refl)
