-- ===== src/Sql/Member.antt =====
-- What is in a table is in what `WHERE`, `ORDER BY` and a large `LIMIT` leave of it.
use mathlib.Core.List.{Memᴰ}
use whatsmcp.Base.{
  ℕ, zero, suc, ◌≡◌, ◌≤◌, refl, sym, ap, arith, Bool, true, some, List, [], ◌∷◌, length, take,
  Bool-cases, inl, inr, by_arms,
}
use whatsmcp.Sql.{first, select, insert_ordered, order_by}

module _ {ℓ} {R : Type ℓ} where
  pub mem_of_first :
      (p : R → Bool) (r : R) (t : List R) → first p t ≡ some r → Memᴰ r t × (p r ≡ true)
  unfolding first
  mem_of_first p r [] h = cc
  mem_of_first p r (x ∷ t) h = elim (Bool-cases (p x)) [
    | inl hit ↦ let e : x ≡ r = ground arith in (Memᴰ.head (sym e), rw (← e) hit)
    | inr miss ↦ let (m, k) = mem_of_first p r t (ground arith) in (Memᴰ.tail m, k)
  ]

  pub select_mem : (p : R → Bool) (r : R) (t : List R) → p r ≡ true → Memᴰ r t → Memᴰ r (select p t)
  unfolding select
  select_mem p r [] h m = elim m [ ]
  select_mem p r (x ∷ t) h (Memᴰ.head e) = rw (← e, h) (Memᴰ.head refl)
  select_mem p r (x ∷ t) h (Memᴰ.tail m) =
      by_arms (Memᴰ r) (p x) (x ∷ select p t) (select p t) (λ _. Memᴰ.tail (select_mem p r t h m))
        (λ _. select_mem p r t h m)

  insert_ordered_mem :
      (before : R → R → Bool) (r x : R) (t : List R)
      → Memᴰ r (x ∷ t)
      → Memᴰ r (insert_ordered before x t)
  unfolding insert_ordered
  insert_ordered_mem before r x [] m = m
  insert_ordered_mem before r x (y ∷ t) (Memᴰ.head e) =
      by_arms (Memᴰ r) (before x y) (x ∷ y ∷ t) (y ∷ insert_ordered before x t) (λ _. Memᴰ.head e)
        (λ _. Memᴰ.tail (insert_ordered_mem before r x t (Memᴰ.head e)))
  insert_ordered_mem before r x (y ∷ t) (Memᴰ.tail (Memᴰ.head e)) =
      by_arms (Memᴰ r) (before x y) (x ∷ y ∷ t) (y ∷ insert_ordered before x t)
        (λ _. Memᴰ.tail (Memᴰ.head e)) (λ _. Memᴰ.head e)
  insert_ordered_mem before r x (y ∷ t) (Memᴰ.tail (Memᴰ.tail m)) =
      by_arms (Memᴰ r) (before x y) (x ∷ y ∷ t) (y ∷ insert_ordered before x t)
        (λ _. Memᴰ.tail (Memᴰ.tail m))
        (λ _. Memᴰ.tail (insert_ordered_mem before r x t (Memᴰ.tail m)))

  pub order_by_mem :
      (before : R → R → Bool) (r : R) (t : List R) → Memᴰ r t → Memᴰ r (order_by before t)
  unfolding order_by
  order_by_mem before r [] m = elim m [ ]
  order_by_mem before r (x ∷ t) (Memᴰ.head e) =
      insert_ordered_mem before r x (order_by before t) (Memᴰ.head e)
  order_by_mem before r (x ∷ t) (Memᴰ.tail m) =
      insert_ordered_mem before r x (order_by before t) (Memᴰ.tail (order_by_mem before r t m))

  pub take_mem : (n : ℕ) (r : R) (t : List R) → length t ≤ n → Memᴰ r t → Memᴰ r (take n t)
  take_mem zero r [] h m = elim m [ ]
  take_mem (suc n) r [] h m = elim m [ ]
  take_mem zero r (x ∷ t) h m = absurd (omega arith)
  take_mem (suc n) r (x ∷ t) h (Memᴰ.head e) = Memᴰ.head e
  take_mem (suc n) r (x ∷ t) h (Memᴰ.tail m) = Memᴰ.tail (take_mem n r t (omega arith) m)

  pub length-select_le : (p : R → Bool) (t : List R) → length (select p t) ≤ length t
  unfolding select
  length-select_le p [] = omega arith
  length-select_le p (x ∷ t) =
      by_arms (λ s. length s ≤ suc (length t)) (p x) (x ∷ select p t) (select p t)
        (λ _. omega (arith, length-select_le p t)) (λ _. omega (arith, length-select_le p t))

  length-insert_ordered :
      (before : R → R → Bool) (x : R) (t : List R)
      → length (insert_ordered before x t) ≡ suc (length t)
  unfolding insert_ordered
  length-insert_ordered before x [] = refl
  length-insert_ordered before x (y ∷ t) =
      by_arms (λ s. length s ≡ suc (suc (length t))) (before x y) (x ∷ y ∷ t)
        (y ∷ insert_ordered before x t) (λ _. refl) (λ _. ap suc (length-insert_ordered before x t))

  pub length-order_by : (before : R → R → Bool) (t : List R) → length (order_by before t) ≡ length t
  unfolding order_by
  length-order_by before [] = refl
  length-order_by before (x ∷ t) =
      omega (arith, length-insert_ordered before x (order_by before t), length-order_by before t)
