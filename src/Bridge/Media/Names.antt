-- ===== src/Bridge/Media/Names.antt =====
-- Stored file names and message IDs.
use mathlib.Core.List.{append_assoc}
use whatsmcp.Base.{
  ℕ, zero, suc, ◌-◌, ◌≤◌, ◌≡◌, refl, true, false, List, [], ◌∷◌, ◌++◌, Text, codes, is_empty,
  length, drop, ltb, contains, has_prefix, All, Bool-cases, inl, inr, arith, length-drop,
}
use whatsmcp.Bridge.Media.{is_id_rune, keep_id_runes, short_id, ext, trim_suffix, unique_name}

keep_id_runes-All : (s : Text) → All (λ r. is_id_rune r ≡ true) (keep_id_runes s)
unfolding keep_id_runes
keep_id_runes-All [] = tt
keep_id_runes-All (r ∷ s) = elim (Bool-cases (is_id_rune r)) [
  | inl kept ↦ rw kept (kept, keep_id_runes-All s)
  | inr dropped ↦ rw dropped (keep_id_runes-All s)
]

drop-All {ℓ κ} : {A : Type ℓ} (P : A → Type κ) (n : ℕ) (xs : List A) → All P xs → All P (drop n xs)
drop-All P zero xs h = h
drop-All P (suc n) [] h = tt
drop-All P (suc n) (x ∷ xs) (_, h) = drop-All P n xs h

length_positive {ℓ} : {A : Type ℓ} (xs : List A) → is_empty xs ≡ false → 1 ≤ length xs
length_positive [] h = cc
length_positive (x ∷ xs) h = omega arith

-- A short ID has one to eight code points, all of them ASCII letters or digits, whatever the ID is:
-- it is safe in a file name.
pub short_id_safe :
    (id : Text)
    → All (λ r. is_id_rune r ≡ true) (short_id id)
      × (1 ≤ length (short_id id))
      × (length (short_id id) ≤ 8)
unfolding short_id
short_id_safe id = elim (Bool-cases (ltb 8 (length (keep_id_runes id)))) [
  | inl long ↦ rw long (
    drop-All _ _ _ (keep_id_runes-All id),
    ground (arith, length-drop (length (keep_id_runes id) - 8) (keep_id_runes id)),
    ground (arith, length-drop (length (keep_id_runes id) - 8) (keep_id_runes id)),
  )
  | inr short ↦ elim (Bool-cases (is_empty (keep_id_runes id))) [
    | inl none_kept ↦
        rw (short, none_kept) ((unfold is_id_rune in refl, tt), omega arith, omega arith)
    | inr some_kept ↦
        rw (short, some_kept) (keep_id_runes-All id, length_positive _ some_kept, ground arith)
  ]
]

pub has_prefix-append : (p t : Text) → has_prefix (p ++ t) p ≡ true
unfolding has_prefix
has_prefix-append [] [] = refl
has_prefix-append [] (c ∷ t) = refl
has_prefix-append (c ∷ p) t = ground (arith, has_prefix-append p t)

contains-append : (s p t : Text) → contains (s ++ (p ++ t)) p ≡ true
unfolding contains has_prefix
contains-append [] [] [] = refl
contains-append [] [] (c ∷ t) = refl
contains-append [] (c ∷ p) t = ground (arith, has_prefix-append p t)
contains-append (c ∷ s) p t = ground (arith, contains-append s p t)

nonempty_of_length : (s : Text) → 1 ≤ length s → is_empty s ≡ false
nonempty_of_length [] h = absurd (omega arith)
nonempty_of_length (c ∷ s) h = refl

short_id_nonempty : (id : Text) → is_empty (short_id id) ≡ false
short_id_nonempty id =
    let (_, at_least, _) = short_id_safe id in nonempty_of_length (short_id id) at_least

unique_name_kept :
    (name id : Text) → contains name (short_id id) ≡ true → unique_name name id ≡ name
unfolding unique_name
unique_name_kept name id h = rw (short_id_nonempty id, h) refl

pub contains-unique_name : (name id : Text) → contains (unique_name name id) (short_id id) ≡ true
unfolding unique_name
contains-unique_name name id = elim (Bool-cases (contains name (short_id id))) [
  | inl already ↦ rw (short_id_nonempty id, already) already
  | inr missing ↦
      rw (short_id_nonempty id, missing)
        (rw (← append_assoc (trim_suffix name (ext name)) (codes "_") (short_id id ++ ext name))
          (contains-append (trim_suffix name (ext name) ++ codes "_") (short_id id) (ext name)))
]

-- The name a file is saved under holds the short ID of its message, and names that hold it already
-- are kept: binding a name to a message twice is binding it once.
pub unique_name_idem :
    (filename id : Text)
    → (contains (unique_name filename id) (short_id id) ≡ true)
      × (unique_name (unique_name filename id) id ≡ unique_name filename id)
unique_name_idem filename id = (
  contains-unique_name filename id,
  unique_name_kept (unique_name filename id) id (contains-unique_name filename id),
)
