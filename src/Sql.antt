-- ===== src/Sql.antt =====
-- SQLite as the program uses it: tables with a primary key, the statements on them, and a database
-- whose next statements may fail (`SQLITE_BUSY`, I/O).
pub mod Laws
pub mod Order
pub mod Rows
pub mod Keyed
pub mod Member
use whatsmcp.Base.{
  ◌≡◌, Bool, true, false, not, Option, none, some, List, [], ◌∷◌, ◌++◌, if◌then◌else◌, Key, same,
}

module _ {ℓ} {R : Type ℓ} where
  -- `SELECT … WHERE p` on a key, or with `LIMIT 1`.
  unfoldable pub first : (R → Bool) → List R → Option R
  first p [] = none
  first p (r ∷ t) = if p r then some r else first p t

  -- `SELECT … WHERE p`, in row order.
  unfoldable pub select : (R → Bool) → List R → List R
  select p [] = []
  select p (r ∷ t) = let rest = select p t in if p r then r ∷ rest else rest

  -- `DELETE … WHERE p`.
  unfoldable pub delete : (R → Bool) → List R → List R
  delete p [] = []
  delete p (r ∷ t) = let rest = delete p t in if p r then rest else r ∷ rest

  -- `UPDATE … SET f WHERE p`.
  unfoldable pub update : (R → Bool) → (R → R) → List R → List R
  update p f [] = []
  update p f (r ∷ t) = (if p r then f r else r) ∷ update p f t

module _ {ℓ} {K R : Type ℓ} ⦃e : Key K⦄ (key : R → K) where
  -- The row has the key `k`.
  abbrev pub has_key : K → R → Bool
  has_key k r = same (key r) k

  -- `INSERT OR REPLACE`: the row of the same key is deleted, and the new one gets a new rowid.
  unfoldable pub insert_or_replace : R → List R → List R
  insert_or_replace r t = delete (has_key (key r)) t ++ r ∷ []

  -- `INSERT … ON CONFLICT DO NOTHING`.
  unfoldable pub insert_or_ignore : R → List R → List R
  insert_or_ignore r t = elim (first (has_key (key r)) t) [ some _ ↦ t | none ↦ t ++ r ∷ [] ]

-- The tables, and for each statement to come whether the engine refuses it; none behind the end.
pub record Db {ℓ} (T : Type ℓ) : Type ℓ where
  pub tables : T
  pub faults : List Bool

abbrev pub next_fault : List Bool → Bool
next_fault [] = false
next_fault (b ∷ bs) = b

abbrev pub later_faults : List Bool → List Bool
later_faults [] = []
later_faults (b ∷ bs) = bs

module _ {ℓ} {T : Type ℓ} where
  -- The statement's effect, `none` where it breaks a constraint.
  abbrev pub commit : Db T → Option T → Db T × Bool
  commit db none = (record db { faults = later_faults db.faults }, false)
  commit db (some t) = (record { tables = t; faults = later_faults db.faults }, true)

  -- `db.Exec`: the new database, and whether there was no error. A failed statement changes nothing.
  unfoldable pub exec : (T → Option T) → Db T → Db T × Bool
  exec stmt db = commit db (if next_fault db.faults then none else stmt db.tables)

  -- `db.QueryRow(…).Scan`: `none` is an error of the engine.
  unfoldable pub query {κ} : {A : Type κ} → (T → A) → Db T → Db T × Option A
  query read db = (
    record db { faults = later_faults db.faults },
    if next_fault db.faults then none else some (read db.tables),
  )

  -- The statements of a transaction, up to the first that fails.
  unfoldable pub exec_all : List (T → Option T) → Db T → Db T × Bool
  unfolding exec
  exec_all [] db = (db, true)
  exec_all (stmt ∷ stmts) db =
      let (next, done) = exec stmt db in
      elim done [ true ↦ exec_all stmts next | false ↦ (next, false) ]

  -- `Begin`, the statements and `Commit`, with `Rollback` behind the first failure: the tables are
  -- those of the beginning then.
  unfoldable pub transaction : List (T → Option T) → Db T → Db T × Bool
  unfolding exec exec_all
  transaction stmts db =
      let (begun, began) = exec some db in
      let (ran, done) = exec_all stmts begun in
      let (ended, committed) = exec some ran in
      if not began
      then (begun, false)
      else if not done
      then (record ran { tables = db.tables }, false)
      else if not committed
      then (record ended { tables = db.tables }, false)
      else (ended, true)

module _ {ℓ} {R : Type ℓ} where
  -- `ORDER BY`: `before x y` where `x` may stand before `y`; rows that tie keep their order.
  unfoldable pub insert_ordered : (R → R → Bool) → R → List R → List R
  insert_ordered before r [] = r ∷ []
  insert_ordered before r (x ∷ t) = if before r x then r ∷ x ∷ t else x ∷ insert_ordered before r t

  unfoldable pub order_by : (R → R → Bool) → List R → List R
  unfolding insert_ordered
  order_by before [] = []
  order_by before (r ∷ t) = insert_ordered before r (order_by before t)

module _ {ℓ} {K R : Type ℓ} ⦃e : Key K⦄ (key : R → K) where
  -- A plain `INSERT`: the primary key refuses a second row.
  unfoldable pub insert : R → List R → Option (List R)
  unfolding first
  insert r t = elim (first (has_key key (key r)) t) [ some _ ↦ none | none ↦ some (t ++ r ∷ []) ]
