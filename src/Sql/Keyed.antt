-- ===== src/Sql/Keyed.antt =====
-- What a key finds behind a `DELETE` or an `UPDATE` of one row.
use whatsmcp.Base.{
  Bool, ap, ◌≡◌, refl, true, false, Option, none, some, List, [], ◌∷◌, Bool-cases, Option-cases,
  inl, inr, Key, same, arith, if◌then◌else◌,
}
use whatsmcp.Sql.{transaction, exec_all, Db, exec, first, delete, update, has_key}
use whatsmcp.Sql.Laws.{
  first-delete_self, first-delete, first-update_self, first-update-none, first-update_other,
}

abbrev pub option_map {ℓ} : {A B : Type ℓ} → (A → B) → Option A → Option B
option_map f none = none
option_map f (some a) = some (f a)

module _ {ℓ} {K R : Type ℓ} ⦃e : Key K⦄ (key : R → K) where
  -- A row that one key finds, another does not.
  other_key :
      (j k : K) (r : R) → same j k ≡ false → has_key key k r ≡ true → has_key key j r ≡ false
  other_key j k r differ hit =
      ground (arith, e.beq_iff (key r) k, e.beq_iff (key r) j, e.beq_iff j k)

  pub first-delete_key :
      (j k : K) (t : List R)
      → first (has_key key k) (delete (has_key key j) t)
        ≡ (if same j k then none else first (has_key key k) t)
  first-delete_key j k t = elim (Bool-cases (same j k)) [
    | inl one ↦
        let eq : j ≡ k = (e.beq_iff j k).0 one in rw (one, eq) (first-delete_self (has_key key k) t)
    | inr two ↦ rw two (first-delete (has_key key k) (has_key key j) t (λ r. other_key j k r two))
  ]

  pub first-update_key :
      (j k : K) (f : R → R) (t : List R)
      → ((r : R) → key (f r) ≡ key r)
      → first (has_key key k) (update (has_key key j) f t)
        ≡ (if same j k then option_map f (first (has_key key k) t) else first (has_key key k) t)
  first-update_key j k f t kept = elim (Bool-cases (same j k)) [
    | inl one ↦
        let eq : j ≡ k = (e.beq_iff j k).0 one in
        rw (one, eq)
          (elim (Option-cases (first (has_key key k) t)) [
            | inl missing ↦ rw missing (
                first-update-none (has_key key k) (has_key key k) f t (λ r. rw (kept r) refl)
                  missing)
            | inr (r, there) ↦
                rw there (first-update_self (has_key key k) f t r (λ x. rw (kept x) refl) there)
          ])
    | inr two ↦ rw two (
        first-update_other (has_key key k) (has_key key j) f t (λ r. other_key j k r two)
          (λ r. rw (kept r) refl))
  ]

-- A statement that the engine runs, where it refuses none.
pub exec-runs {ℓ} :
    {T : Type ℓ} (stmt : T → Option T) (db : Db T) (t : T)
    → db.faults ≡ []
    → stmt db.tables ≡ some t
    → exec stmt db ≡ (record { tables = t; faults = [] }, true)
unfolding exec
exec-runs stmt db t h e = rw (h, e) refl

-- A transaction goes on behind a statement that is done.
pub exec_all-runs {ℓ} :
    {T : Type ℓ} (stmt : T → Option T) (stmts : List (T → Option T)) (db next : Db T)
    → exec stmt db ≡ (next, true)
    → exec_all (stmt ∷ stmts) db ≡ exec_all stmts next
unfolding exec_all
exec_all-runs {T = T} stmt stmts db next e =
    let after : Db T × Bool → Db T × Bool =
      λ r. elim r.1 [ true ↦ exec_all stmts r.0 | false ↦ (r.0, false) ] in
    ap after e

-- A transaction on an engine that refuses nothing commits what its statements make.
pub transaction-runs {ℓ} :
    {T : Type ℓ} (stmts : List (T → Option T)) (t next : T)
    → exec_all stmts (record { tables = t; faults = [] })
      ≡ (record { tables = next; faults = [] }, true)
    → transaction stmts (record { tables = t; faults = [] })
      ≡ (record { tables = next; faults = [] }, true)
unfolding transaction exec
transaction-runs stmts t next e = rw (e, transaction) refl
