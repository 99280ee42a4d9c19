-- ===== src/Sql/Rows.antt =====
-- What holds of all rows of a table holds of what the reads give.
use mathlib.Core.List.{reverse, reverse-append}
use whatsmcp.Base.{
  ℕ, zero, suc, ◌≡◌, Bool, true, false, Option, none, some, List, [], ◌∷◌, take, drop, All,
  All-append, Bool-cases, inl, inr, if◌then◌else◌,
}
use whatsmcp.Sql.{Db, query, next_fault, select, insert_ordered, order_by}

module _ {ℓ κ} {R : Type ℓ} (P : R → Type κ) where
  -- The rows that are selected pass the test.
  pub All-select : (p : R → Bool) (t : List R) → ((r : R) → p r ≡ true → P r) → All P (select p t)
  unfolding select
  All-select p [] h = tt
  All-select p (r ∷ t) h = elim (Bool-cases (p r)) [
    | inl hit ↦ rw hit (h r hit, All-select p t h)
    | inr miss ↦ rw miss (All-select p t h)
  ]

  insert_ordered-All :
      (before : R → R → Bool) (r : R) (t : List R)
      → P r
      → All P t
      → All P (insert_ordered before r t)
  unfolding insert_ordered
  insert_ordered-All before r [] hr h = (hr, tt)
  insert_ordered-All before r (x ∷ t) hr (hx, h) = elim (Bool-cases (before r x)) [
    | inl first ↦ rw first (hr, (hx, h))
    | inr later ↦ rw later (hx, insert_ordered-All before r t hr h)
  ]

  pub All-order_by : (before : R → R → Bool) (t : List R) → All P t → All P (order_by before t)
  unfolding order_by
  All-order_by before [] h = tt
  All-order_by before (r ∷ t) (hr, h) = insert_ordered-All before r _ hr (All-order_by before t h)

  pub All-take : (n : ℕ) (t : List R) → All P t → All P (take n t)
  All-take zero t h = tt
  All-take (suc n) [] h = tt
  All-take (suc n) (x ∷ t) (hx, h) = (hx, All-take n t h)

  pub All-drop : (n : ℕ) (t : List R) → All P t → All P (drop n t)
  All-drop zero t h = h
  All-drop (suc n) [] h = tt
  All-drop (suc n) (x ∷ t) (hx, h) = All-drop n t h

  pub All-reverse : (t : List R) → All P t → All P (reverse t)
  All-reverse [] h = tt
  All-reverse (x ∷ t) (hx, h) =
      rw (reverse-append (x ∷ []) t) (All-append P (reverse t) _ (All-reverse t h) (hx, tt))

-- What holds of the value, where there is one.
abbrev pub OfOption {ℓ κ} : {A : Type ℓ} → (A → Type κ) → Option A → Type κ
OfOption P none = Unit
OfOption P (some a) = P a

OfOption-if {ℓ κ} :
    {A : Type ℓ} (P : A → Type κ) (b : Bool) (a : A) → P a → OfOption P (if b then none else some a)
OfOption-if P true a h = tt
OfOption-if P false a h = h

-- What is read is what the tables hold, where the engine does not refuse.
pub query-OfOption {ℓ κ μ} :
    {T : Type ℓ} {A : Type κ} (P : A → Type μ) (read : T → A) (db : Db T)
    → P (read db.tables)
    → OfOption P ((query read db).1)
unfolding query
query-OfOption P read db h = OfOption-if P (next_fault db.faults) (read db.tables) h
