-- ===== src/Sql/Laws.antt =====
-- What the statements leave and find, and that they keep a primary key unique.
use whatsmcp.Base.{
  ◌≡◌, refl, Bool, true, false, Bool-cases, Option-cases, ◌∙◌, inl, inr, none, some, List, [], ◌∷◌,
  ◌++◌, if◌then◌else◌, arith, All, All-append, Key, same, same_refl, same_comm,
}
use whatsmcp.Sql.{first, delete, update, has_key, insert_or_replace, insert_or_ignore}

module _ {ℓ} {R : Type ℓ} where
  pub first-append_none :
      (p : R → Bool) (s t : List R) → first p s ≡ none → first p (s ++ t) ≡ first p t
  unfolding first
  first-append_none p [] t h = refl
  first-append_none p (r ∷ s) t h = ground (arith, first-append_none p s t)

  pub first-append_some :
      (p : R → Bool) (s t : List R) (r : R) → first p s ≡ some r → first p (s ++ t) ≡ some r
  unfolding first
  first-append_some p [] t r h = cc
  first-append_some p (x ∷ s) t r h = ground (arith, first-append_some p s t r)

  pub first-delete_self : (p : R → Bool) (t : List R) → first p (delete p t) ≡ none
  unfolding first delete
  first-delete_self p [] = refl
  first-delete_self p (r ∷ t) = ground (arith, first-delete_self p t)

  pub first-delete_of_none :
      (p q : R → Bool) (t : List R) → first p t ≡ none → first p (delete q t) ≡ none
  unfolding first delete
  first-delete_of_none p q [] h = refl
  first-delete_of_none p q (r ∷ t) h = ground (arith, first-delete_of_none p q t)

  -- Deleting other rows does not change what is found.
  pub first-delete :
      (p q : R → Bool) (t : List R)
      → ((r : R) → p r ≡ true → q r ≡ false)
      → first p (delete q t) ≡ first p t
  unfolding first delete
  first-delete p q [] h = refl
  first-delete p q (r ∷ t) h = ground (arith, h r, first-delete p q t h)

  -- Nor does updating them, where an update leaves the test as it is.
  pub first-update_other :
      (p q : R → Bool) (f : R → R) (t : List R)
      → ((r : R) → p r ≡ true → q r ≡ false)
      → ((r : R) → p (f r) ≡ p r)
      → first p (update q f t) ≡ first p t
  unfolding first update
  first-update_other p q f [] h k = refl
  first-update_other p q f (r ∷ t) h k = ground (arith, h r, k r, first-update_other p q f t h k)

  pub first-update_self :
      (p : R → Bool) (f : R → R) (t : List R) (r : R)
      → ((x : R) → p (f x) ≡ p x)
      → first p t ≡ some r
      → first p (update p f t) ≡ some (f r)
  unfolding first update
  first-update_self p f [] r k h = cc
  first-update_self p f (x ∷ t) r k h = ground (arith, k x, first-update_self p f t r k)

  pub first-update-none :
      (p q : R → Bool) (f : R → R) (t : List R)
      → ((x : R) → p (f x) ≡ p x)
      → first p t ≡ none
      → first p (update q f t) ≡ none
  unfolding first update
  first-update-none p q f [] k h = refl
  first-update-none p q f (x ∷ t) k h = ground (arith, k x, first-update-none p q f t k)

  pub delete-All {κ} : (P : R → Type κ) (p : R → Bool) (t : List R) → All P t → All P (delete p t)
  unfolding delete
  delete-All P p [] h = tt
  delete-All P p (r ∷ t) (hr, ht) = elim (Bool-cases (p r)) [
    | inl hit ↦ rw hit (delete-All P p t ht)
    | inr miss ↦ rw miss (hr, delete-All P p t ht)
  ]

  pub update-All {κ} :
      (P : R → Type κ) (p : R → Bool) (f : R → R) (t : List R)
      → ((r : R) → P r → P (f r))
      → All P t
      → All P (update p f t)
  unfolding update
  update-All P p f [] k h = tt
  update-All P p f (r ∷ t) k (hr, ht) = elim (Bool-cases (p r)) [
    | inl hit ↦ rw hit (k r hr, update-All P p f t k ht)
    | inr miss ↦ rw miss (hr, update-All P p f t k ht)
  ]

  pub delete-All_miss : (p : R → Bool) (t : List R) → All (λ r. p r ≡ false) (delete p t)
  unfolding delete
  delete-All_miss p [] = tt
  delete-All_miss p (r ∷ t) = elim (Bool-cases (p r)) [
    | inl hit ↦ rw hit (delete-All_miss p t)
    | inr miss ↦ rw miss (miss, delete-All_miss p t)
  ]

  pub All-miss_of_first : (p : R → Bool) (t : List R) → first p t ≡ none → All (λ r. p r ≡ false) t
  unfolding first
  All-miss_of_first p [] h = tt
  All-miss_of_first p (r ∷ t) h = (ground arith, All-miss_of_first p t (ground arith))

module _ {ℓ} {K R : Type ℓ} ⦃e : Key K⦄ (key : R → K) where
  -- No two rows have one key.
  abbrev pub HasUniqueKeys : List R → Type ℓ
  HasUniqueKeys [] = Unit
  HasUniqueKeys (r ∷ t) = All (λ s. has_key key (key r) s ≡ false) t × HasUniqueKeys t

  pub first-insert_or_replace_self :
      (r : R) (t : List R) → first (has_key key (key r)) (insert_or_replace key r t) ≡ some r
  unfolding insert_or_replace
  first-insert_or_replace_self r t =
      rw (first-append_none _ (delete (has_key key (key r)) t) (r ∷ []) (first-delete_self _ t))
        (unfold first in rw (same_refl (key r)))

  pub first-insert_or_replace_other :
      (k : K) (r : R) (t : List R)
      → same (key r) k ≡ false
      → first (has_key key k) (insert_or_replace key r t) ≡ first (has_key key k) t
  unfolding insert_or_replace
  first-insert_or_replace_other k r t other =
      let apart = λ (x : R) (hit : has_key key k x ≡ true). miss_other x hit in
      elim (Option-cases (first (has_key key k) t)) [
        | inl missing ↦
            rw
              (
                first-append_none _ (delete (has_key key (key r)) t) (r ∷ [])
                    (first-delete_of_none _ _ t missing),
                missing,
              )
              (unfold first in rw other)
        | inr (x, found) ↦ rw found (
            first-append_some _ (delete (has_key key (key r)) t) (r ∷ []) x
              (first-delete (has_key key k) (has_key key (key r)) t apart ∙ found))
      ]
    where
      miss_other : (x : R) → has_key key k x ≡ true → has_key key (key r) x ≡ false
      miss_other x hit =
          ground (arith, e.beq_iff (key x) k, e.beq_iff (key r) k, e.beq_iff (key x) (key r))

  -- One law for every key: a replaced row is found under its key, the others as before.
  pub first-insert_or_replace :
      (k : K) (r : R) (t : List R)
      → first (has_key key k) (insert_or_replace key r t)
        ≡ (if same (key r) k then some r else first (has_key key k) t)
  first-insert_or_replace k r t = elim (Bool-cases (same (key r) k)) [
    | inl hit ↦
        let e' : key r ≡ k = (e.beq_iff (key r) k).0 hit in
        rw hit (rw (← e') (first-insert_or_replace_self r t))
    | inr other ↦ rw other (first-insert_or_replace_other k r t other)
  ]

  unique_concat :
      (r : R) (t : List R)
      → All (λ s. has_key key (key r) s ≡ false) t
      → HasUniqueKeys t
      → HasUniqueKeys (t ++ r ∷ [])
  unique_concat r [] _ _ = (tt, tt)
  unique_concat r (x ∷ t) (apart, others) (hx, ht) = (
    All-append _ t (r ∷ []) hx (same_comm (key r) (key x) ∙ apart, tt),
    unique_concat r t others ht,
  )

  pub delete-HasUniqueKeys :
      (p : R → Bool) (t : List R) → HasUniqueKeys t → HasUniqueKeys (delete p t)
  unfolding delete
  delete-HasUniqueKeys p [] h = tt
  delete-HasUniqueKeys p (r ∷ t) (hr, ht) = elim (Bool-cases (p r)) [
    | inl hit ↦ rw hit (delete-HasUniqueKeys p t ht)
    | inr miss ↦ rw miss (delete-All _ p t hr, delete-HasUniqueKeys p t ht)
  ]

  pub update-HasUniqueKeys :
      (p : R → Bool) (f : R → R) (t : List R)
      → ((r : R) → key (f r) ≡ key r)
      → HasUniqueKeys t
      → HasUniqueKeys (update p f t)
  unfolding update
  update-HasUniqueKeys p f [] k h = tt
  update-HasUniqueKeys p f (r ∷ t) k (hr, ht) =
      (rw kept (update-All _ p f t (λ x miss. rw (k x) miss) hr), update-HasUniqueKeys p f t k ht)
    where
      kept : key (if p r then f r else r) ≡ key r
      kept = ground (arith, k r)

  pub insert_or_replace-HasUniqueKeys :
      (r : R) (t : List R) → HasUniqueKeys t → HasUniqueKeys (insert_or_replace key r t)
  unfolding insert_or_replace
  insert_or_replace-HasUniqueKeys r t h =
      unique_concat r _ (delete-All_miss (has_key key (key r)) t)
        (delete-HasUniqueKeys (has_key key (key r)) t h)

  pub insert_or_ignore-HasUniqueKeys :
      (r : R) (t : List R) → HasUniqueKeys t → HasUniqueKeys (insert_or_ignore key r t)
  unfolding insert_or_ignore
  insert_or_ignore-HasUniqueKeys r t h = elim (Option-cases (first (has_key key (key r)) t)) [
    | inl missing ↦
        rw (missing, insert_or_ignore) (unique_concat r t (All-miss_of_first _ t missing) h)
    | inr (x, found) ↦ rw (found, insert_or_ignore) h
  ]

  pub insert_or_ignore_old :
      (r : R) (t : List R) {x : R}
      → first (has_key key (key r)) t ≡ some x
      → insert_or_ignore key r t ≡ t
  unfolding insert_or_ignore
  insert_or_ignore_old r t found = rw (found, insert_or_ignore)

  pub insert_or_ignore_new :
      (r : R) (t : List R)
      → first (has_key key (key r)) t ≡ none
      → insert_or_ignore key r t ≡ t ++ r ∷ []
  unfolding insert_or_ignore
  insert_or_ignore_new r t missing = rw (missing, insert_or_ignore)

  -- An ignored insert finds every row that was there.
  pub first-insert_or_ignore_old :
      (k : K) (r : R) (t : List R) (x : R)
      → first (has_key key k) t ≡ some x
      → first (has_key key k) (insert_or_ignore key r t) ≡ some x
  first-insert_or_ignore_old k r t x h = elim (Option-cases (first (has_key key (key r)) t)) [
    | inl missing ↦ rw (insert_or_ignore_new r t missing) (first-append_some _ t (r ∷ []) x h)
    | inr (y, found) ↦ rw (insert_or_ignore_old r t found) h
  ]

  -- Behind it there is a row of the key.
  pub first-insert_or_ignore_self :
      (r : R) (t : List R)
      → (x : R) × (first (has_key key (key r)) (insert_or_ignore key r t) ≡ some x)
  unfolding first
  first-insert_or_ignore_self r t = elim (Option-cases (first (has_key key (key r)) t)) [
    | inl missing ↦ (
      r,
      rw (insert_or_ignore_new r t missing, first-append_none _ t (r ∷ []) missing)
          (rw (same_refl (key r))),
    )
    | inr (y, found) ↦ (y, rw (insert_or_ignore_old r t found) found)
  ]
