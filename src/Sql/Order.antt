-- ===== src/Sql/Order.antt =====
-- `ORDER BY` leaves an ordered list as it is, and `SELECT` on the rows that are and are not meant.
use whatsmcp.Base.{◌≡◌, refl, Bool, true, List, [], ◌∷◌, ◌++◌, All, ap, arith}
use whatsmcp.Sql.{select, delete, insert_ordered, order_by}

module _ {ℓ} {R : Type ℓ} where
  -- Each row may stand before all that follow it.
  abbrev pub IsOrdered : (R → R → Bool) → List R → Type ℓ
  IsOrdered before [] = Unit
  IsOrdered before (r ∷ t) = All (λ x. before r x ≡ true) t × IsOrdered before t

  insert_first :
      (before : R → R → Bool) (r : R) (t : List R)
      → All (λ x. before r x ≡ true) t
      → insert_ordered before r t ≡ r ∷ t
  unfolding insert_ordered
  insert_first before r [] h = refl
  insert_first before r (x ∷ t) (hx, h) = rw hx refl

  pub order_by-IsOrdered :
      (before : R → R → Bool) (t : List R) → IsOrdered before t → order_by before t ≡ t
  unfolding order_by
  order_by-IsOrdered before [] h = refl
  order_by-IsOrdered before (r ∷ t) (hr, ht) =
      rw (order_by-IsOrdered before t ht) (insert_first before r t hr)

  pub select-append : (p : R → Bool) (s t : List R) → select p (s ++ t) ≡ select p s ++ select p t
  unfolding select
  select-append p [] t = refl
  select-append p (r ∷ s) t = ground (arith, select-append p s t)

  pub select-delete : (p : R → Bool) (t : List R) → select p (delete p t) ≡ []
  unfolding select delete
  select-delete p [] = refl
  select-delete p (r ∷ t) = ground (arith, select-delete p t)

  pub select-All : (p : R → Bool) (t : List R) → All (λ r. p r ≡ true) t → select p t ≡ t
  unfolding select
  select-All p [] h = refl
  select-All p (r ∷ t) (hr, ht) = rw hr (ap (λ u. r ∷ u) (select-All p t ht))
