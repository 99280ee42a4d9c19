-- ===== src/Base/StringLaws.antt =====
-- Laws of the text functions: where `last_index` splits a text, and what `trim_space` leaves.
use Prim.Native.Nat.{ℕ, suc}
use mathlib.Core.Path.{◌≡◌, refl, sym, ap, ◌∙◌}
use mathlib.Core.Logic.{◌≢◌, inl, inr}
use mathlib.Core.Bool.{true, false}
use mathlib.Core.List.{[], ◌∷◌, ◌++◌, reverse, reverse-append, reverse-reverse}
use mathlib.Core.Option.{none, some}
use native.Mathlib.Omega.{arith}
use whatsmcp.Base.Tests.{◌==◌, ==_iff, Bool-cases, Option-cases}
use whatsmcp.Base.Lists.{length, take, drop, All}
use whatsmcp.Base.Strings.{Text, is_space, trim_left, trim_space, contains_rune, last_index}

abbrev pub Lacks : ℕ → Text → Type 0
Lacks c = All (λ d. d ≢ c)

pub last_index-eq-none : (c : ℕ) (s : Text) → last_index c s ≡ none → Lacks c s
unfolding last_index
last_index-eq-none c [] h = tt
last_index-eq-none c (d ∷ s) h = elim (Option-cases (last_index c s)) [
  | inl missing ↦ (ground arith, last_index-eq-none c s missing)
  | inr (i, found) ↦ absurd (ground arith)
]

pub last_index_of_Lacks : (c : ℕ) (s : Text) → Lacks c s → last_index c s ≡ none
unfolding last_index
last_index_of_Lacks c [] h = refl
last_index_of_Lacks c (d ∷ s) (hd, hs) = ground (arith, last_index_of_Lacks c s hs)

-- The text before the last `c`, the `c`, and a text without `c` behind it spell the whole text.
pub last_index-eq-some :
    (c : ℕ) (s : Text) (i : ℕ)
    → last_index c s ≡ some i
    → (take i s ++ c ∷ drop (suc i) s ≡ s) × Lacks c (drop (suc i) s)
unfolding last_index
last_index-eq-some c [] i h = cc
last_index-eq-some c (d ∷ s) i h = elim (Option-cases (last_index c s)) [
  | inl missing ↦ elim (Bool-cases (d == c)) [
    | inl same ↦
        let e : i ≡ 0 = ground arith in
        rw e (rw ((==_iff d c).0 same) refl, last_index-eq-none c s missing)
    | inr other ↦ absurd (ground arith)
  ]
  | inr (j, found) ↦
      let e : i ≡ suc j = ground arith in
      let (spells, lacks) = last_index-eq-some c s j found in rw e (ap (λ r. d ∷ r) spells, lacks)
]

pub last_index-append :
    (c : ℕ) (u v : Text) → Lacks c v → last_index c (u ++ c ∷ v) ≡ some (length u)
unfolding last_index
last_index-append c [] v h = ground (arith, last_index_of_Lacks c v h)
last_index-append c (d ∷ u) v h = ground (arith, last_index-append c u v h)

pub contains_rune-append : (c : ℕ) (u v : Text) → contains_rune c (u ++ c ∷ v) ≡ true
unfolding contains_rune
contains_rune-append c [] v = ground arith
contains_rune-append c (d ∷ u) v = ground (arith, contains_rune-append c u v)

pub contains_rune_of_Lacks : (c : ℕ) (s : Text) → Lacks c s → contains_rune c s ≡ false
unfolding contains_rune
contains_rune_of_Lacks c [] h = refl
contains_rune_of_Lacks c (d ∷ s) (hd, hs) = ground (arith, contains_rune_of_Lacks c s hs)

-- The first code point, if there is one, is no blank.
abbrev pub StartsSolid : Text → Type 0
StartsSolid [] = Unit
StartsSolid (c ∷ s) = is_space c ≡ false

trim_left-StartsSolid : (s : Text) → StartsSolid (trim_left s)
unfolding trim_left
trim_left-StartsSolid [] = tt
trim_left-StartsSolid (c ∷ s) = elim (Bool-cases (is_space c)) [
  | inl blank ↦ rw blank (trim_left-StartsSolid s)
  | inr solid ↦ rw solid solid
]

trim_left_of_StartsSolid : (s : Text) → StartsSolid s → trim_left s ≡ s
unfolding trim_left
trim_left_of_StartsSolid [] h = refl
trim_left_of_StartsSolid (c ∷ s) h = rw h

-- What `trim_left` drops.
trim_left_suffix : (s : Text) → (p : Text) × (p ++ trim_left s ≡ s)
unfolding trim_left
trim_left_suffix [] = ([], refl)
trim_left_suffix (c ∷ s) = elim (Bool-cases (is_space c)) [
  | inl blank ↦ let (p, e) = trim_left_suffix s in (c ∷ p, rw blank (ap (λ r. c ∷ r) e))
  | inr solid ↦ ([], rw solid refl)
]

StartsSolid-prefix : (p q : Text) → StartsSolid (p ++ q) → StartsSolid p
StartsSolid-prefix [] q h = tt
StartsSolid-prefix (c ∷ p) q h = h

trim_right_StartsSolid : (s : Text) → StartsSolid s → StartsSolid (reverse (trim_left (reverse s)))
trim_right_StartsSolid s h =
    let (p, e) = trim_left_suffix (reverse s) in
    let whole : reverse (trim_left (reverse s)) ++ reverse p ≡ s =
      sym (reverse-append p (trim_left (reverse s))) ∙ ap reverse e ∙ reverse-reverse s in
    StartsSolid-prefix _ (reverse p) (rw whole h)

-- Trimming twice is trimming once.
pub trim_space_idem : (s : Text) → trim_space (trim_space s) ≡ trim_space s
unfolding trim_space
trim_space_idem s =
    let solid = trim_right_StartsSolid (trim_left s) (trim_left-StartsSolid s) in
    rw (
      trim_left_of_StartsSolid _ solid,
      reverse-reverse,
      trim_left_of_StartsSolid _ (trim_left-StartsSolid (reverse (trim_left s))),
    )

pub trim_space_of_solid : (s : Text) → StartsSolid s → StartsSolid (reverse s) → trim_space s ≡ s
unfolding trim_space
trim_space_of_solid s h k =
    rw (trim_left_of_StartsSolid s h, trim_left_of_StartsSolid _ k) (reverse-reverse s)

pub Lacks_of_contains_rune : (c : ℕ) (s : Text) → contains_rune c s ≡ false → Lacks c s
unfolding contains_rune
Lacks_of_contains_rune c [] h = tt
Lacks_of_contains_rune c (d ∷ s) h = (ground arith, Lacks_of_contains_rune c s (ground arith))
