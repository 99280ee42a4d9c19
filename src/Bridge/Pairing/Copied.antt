-- ===== src/Bridge/Pairing/Copied.antt =====
-- A pairing and the store.
use whatsmcp.Base.{
  ℕ, ◌≡◌, refl, ap, ◌∙◌, Bool, true, false, not, ◌&&◌, Option, none, some, List, [], ◌∷◌, ◌++◌,
  Text, text_eq, text_eq_iff, Bool-cases, Option-cases, inl, inr, text_key, if◌then◌else◌,
}
use mathlib.Core.Bool.{and-true, and-false}
use whatsmcp.Sql.{query, first, insert, has_key, next_fault}
use whatsmcp.Sql.Laws.{first-append_none, first-append_some}
use whatsmcp.Qr.{QrItem}
use whatsmcp.Bridge.Store.{Tables}
use whatsmcp.Bridge.Pairing.{Copy, copy_key, Machine, copied_to, pair_on, copy_store, do_qr_pair}

abbrev pub find_copy : Text → List Copy → Option Copy
find_copy name copies = first (has_key copy_key name) copies

-- What was there stays; else there is what is new.
abbrev pub kept_or : Option Copy → Option Copy → Option Copy
kept_or none new = new
kept_or (some c) new = some c

or_none : (o : Option Copy) → o ≡ kept_or o none
or_none none = refl
or_none (some c) = refl

find_copy-append :
    (name minute : Text) (copies : List Copy) (t : Tables)
    → find_copy name (copies ++ (minute, t) ∷ [])
      ≡ kept_or (find_copy name copies) (if text_eq minute name then some (minute, t) else none)
unfolding first
find_copy-append name minute copies t = elim (Option-cases (find_copy name copies)) [
  | inl miss ↦ rw miss (first-append_none (has_key copy_key name) copies ((minute, t) ∷ []) miss)
  | inr (c, hit) ↦
      rw hit (first-append_some (has_key copy_key name) copies ((minute, t) ∷ []) c hit)
]

-- A minute that has its copy adds nothing.
kept_copy :
    (name minute : Text) (copies : List Copy) (t : Tables) (c : Copy)
    → find_copy minute copies ≡ some c
    → find_copy name copies
      ≡ kept_or (find_copy name copies) (if text_eq minute name then some (minute, t) else none)
kept_copy name minute copies t c old = elim (Bool-cases (text_eq minute name)) [
  | inl same_name ↦
      let at : find_copy name copies ≡ some c = rw (← (text_eq_iff minute name).0 same_name) old in
      rw at refl
  | inr other ↦ rw other (or_none (find_copy name copies))
]

copied_to-find :
    (name minute : Text) (copies : List Copy) (t : Tables)
    → find_copy name (copied_to minute copies (some t))
      ≡ kept_or (find_copy name copies) (if text_eq minute name then some (minute, t) else none)
unfolding insert
copied_to-find name minute copies t = elim (Option-cases (first (has_key copy_key minute) copies)) [
  | inl fresh ↦ rw (fresh, insert) (find_copy-append name minute copies t)
  | inr (c, old) ↦ rw (old, insert) (kept_copy name minute copies t c old)
]

copy_store-find :
    (name minute : Text) (m : Machine)
    → find_copy name ((copy_store minute m).copies)
      ≡ kept_or (find_copy name m.copies) (
          if text_eq minute name && not (next_fault m.db.faults)
          then some (minute, m.db.tables)
          else none)
unfolding copy_store query
copy_store-find name minute m = elim (Bool-cases (next_fault m.db.faults)) [
  | inl refused ↦ rw (refused, and-false (text_eq minute name)) (or_none (find_copy name m.copies))
  | inr runs ↦
      rw (runs, and-true (text_eq minute name)) (copied_to-find name minute m.copies m.db.tables)
]

module _ (encode : Text → Option (List ℕ)) (qr_png : Text) where
  pair_on-copies :
      (gets connects : Bool) (items : List QrItem) (m : Machine)
      → (pair_on encode qr_png gets connects items m).0.copies ≡ m.copies
  pair_on-copies false connects items m = refl
  pair_on-copies true false items m = refl
  pair_on-copies true true items m = refl

  pair_on-tables :
      (gets connects : Bool) (items : List QrItem) (m : Machine)
      → (pair_on encode qr_png gets connects items m).0.db ≡ m.db
  pair_on-tables false connects items m = refl
  pair_on-tables true false items m = refl
  pair_on-tables true true items m = refl

-- A pairing with the store open, whatever comes of it, leaves the tables as they are, keeps every copy
-- that was there, and adds the one of the whole store under its minute and no other, where the engine
-- does not refuse it and none of that minute is there.
pub do_qr_pair-Copies :
    (encode : Text → Option (List ℕ)) (qr_png : Text) (gets connects : Bool) (minute name : Text)
    (items : List QrItem) (m : Machine)
    → let after = (do_qr_pair encode qr_png true gets connects minute items m).0 in
      (after.db.tables ≡ m.db.tables)
      × (find_copy name after.copies
          ≡ kept_or (find_copy name m.copies) (
              if text_eq minute name && not (next_fault m.db.faults)
              then some (minute, m.db.tables)
              else none))
unfolding do_qr_pair copy_store query
do_qr_pair-Copies encode qr_png gets connects minute name items m = (
  ap (λ db. db.tables) (pair_on-tables encode qr_png gets connects items (copy_store minute m)),
  ap (find_copy name) (pair_on-copies encode qr_png gets connects items (copy_store minute m))
      ∙ copy_store-find name minute m,
)
