-- ===== src/Bridge/Vcard/Phones.antt =====
-- What `telefonesDoVcard` returns: dialable numbers, each once.
use whatsmcp.Base.{
  ℕ, zero, suc, ◌+◌, ◌≤◌, ◌≡◌, refl, ◌⊎◌, inl, inr, true, false, Bool-cases, Option-cases, some,
  List, [], ◌∷◌, ◌++◌, All, All-append, Text, text_eq, text_eq_iff, length, arith, is_empty,
  trim_space, drop, leb, not, ◌&&◌, if◌then◌else◌, ◌==◌, ==_iff,
}
use whatsmcp.Bridge.Std.{Std}
use whatsmcp.Bridge.Vcard.{
  is_digit, digits, clean, member, is_tel, phone_of, scan_lines, all_waids, waid_here, add_new,
  phones_of_vcard, leading_digits, split_runes, waid_of, raw_of,
}

abbrev pub IsDigits : Text → Type 0
IsDigits = All (λ c. is_digit c ≡ true)

-- Digits, or a `+` and digits.
abbrev pub IsDialable : Text → Type 0
IsDialable [] = Unit
IsDialable (c ∷ s) = ((is_digit c ≡ true) ⊎ (c ≡ b'+')) × IsDigits s

abbrev pub IsPhone : Text → Type 0
IsPhone s = IsDialable s × (8 ≤ length s)

abbrev pub IsDistinct : List Text → Type 0
IsDistinct [] = Unit
IsDistinct (x ∷ xs) = (member x xs ≡ false) × IsDistinct xs

digits-IsDigits : (s : Text) → IsDigits (digits s)
unfolding digits
digits-IsDigits [] = tt
digits-IsDigits (c ∷ s) = elim (Bool-cases (is_digit c)) [
  | inl hit ↦ rw hit (hit, digits-IsDigits s)
  | inr miss ↦ rw miss (digits-IsDigits s)
]

IsDialable-of_digits : (s : Text) → IsDigits s → IsDialable s
IsDialable-of_digits [] h = tt
IsDialable-of_digits (c ∷ s) (hc, hs) = (inl hc, hs)

clean-IsDialable : (s : Text) → IsDialable (clean s)
unfolding clean
clean-IsDialable [] = tt
clean-IsDialable (c ∷ s) = elim (Bool-cases (is_digit c)) [
  | inl hit ↦ rw hit (inl hit, digits-IsDigits s)
  | inr miss ↦ elim (Bool-cases (c == b'+')) [
    | inl plus ↦ rw (miss, plus) (inr ((==_iff c b'+').0 plus), digits-IsDigits s)
    | inr other ↦ rw (miss, other) (IsDialable-of_digits _ (digits-IsDigits s))
  ]
]

leading_digits-IsDigits : (s : Text) → IsDigits (leading_digits s)
unfolding leading_digits
leading_digits-IsDigits [] = tt
leading_digits-IsDigits (c ∷ s) = elim (Bool-cases (is_digit c)) [
  | inl hit ↦ rw hit (hit, leading_digits-IsDigits s)
  | inr miss ↦ rw miss tt
]

member-append :
    (x : Text) (xs : List Text) (y : Text)
    → member x xs ≡ false
    → text_eq x y ≡ false
    → member x (xs ++ y ∷ []) ≡ false
unfolding member
member-append x [] y h k = ground arith
member-append x (z ∷ xs) y h k = ground (arith, member-append x xs y)

IsDistinct-concat :
    (xs : List Text) (y : Text) → IsDistinct xs → member y xs ≡ false → IsDistinct (xs ++ y ∷ [])
unfolding member
IsDistinct-concat [] y _ _ = (refl, tt)
IsDistinct-concat (x ∷ xs) y (hx, hxs) h = (
  member-append x xs y hx (ground (arith, text_eq_iff x y, text_eq_iff y x)),
  IsDistinct-concat xs y hxs (ground arith),
)

-- What holds of the numbers collected so far.
abbrev pub IsPhoneList : List Text → Type 0
IsPhoneList nums = All IsPhone nums × IsDistinct nums

module _ (nums : List Text) (held : IsPhoneList nums) (s : Text) where
  push-IsPhoneList : IsPhone s → member s nums ≡ false → IsPhoneList (nums ++ s ∷ [])
  push-IsPhoneList phone fresh =
      (All-append IsPhone nums (s ∷ []) held.0 (phone, tt), IsDistinct-concat nums s held.1 fresh)

module _ (lib : Std) where
  phone_of-IsDialable : (line : Text) → IsDialable (phone_of lib line)
  unfolding phone_of
  phone_of-IsDialable line =
      clean-IsDialable
        (trim_space (if is_empty (waid_of lib line) then raw_of lib line else waid_of lib line))

  scan_lines-IsPhoneList :
      (lines nums : List Text) → IsPhoneList nums → IsPhoneList (scan_lines lib lines nums)
  unfolding scan_lines
  scan_lines-IsPhoneList [] nums h = h
  scan_lines-IsPhoneList (raw ∷ lines) nums h =
      let line = trim_space raw in
      let s = phone_of lib line in
      let test = is_tel lib line && leb 8 (length s) && not (member s nums) in
      scan_lines-IsPhoneList lines (if test then nums ++ s ∷ [] else nums) (elim (Bool-cases test) [
        | inl new ↦
            rw new
              (push-IsPhoneList nums h s (phone_of-IsDialable line, ground arith) (ground arith))
        | inr old ↦ rw old h
      ])

waid_here-IsPhone : (s number : Text) → waid_here s ≡ some number → IsPhone number
unfolding waid_here
waid_here-IsPhone s number h =
    let same : leading_digits (drop 5 s) ≡ number = ground arith in
    let long : 8 ≤ length (leading_digits (drop 5 s)) = ground arith in
    rw (← same) (IsDialable-of_digits _ (leading_digits-IsDigits (drop 5 s)), long)

all_waids-IsPhone : (skip : ℕ) (s : Text) → All IsPhone (all_waids skip s)
unfolding all_waids
all_waids-IsPhone skip [] = tt
all_waids-IsPhone (suc skip) (c ∷ s) = all_waids-IsPhone skip s
all_waids-IsPhone zero (c ∷ s) = elim (Option-cases (waid_here (c ∷ s))) [
  | inl missing ↦ rw (missing, all_waids) (all_waids-IsPhone zero s)
  | inr (number, found) ↦
      rw (found, all_waids)
        (waid_here-IsPhone (c ∷ s) number found, all_waids-IsPhone (4 + length number) s)
]

add_new-IsPhoneList :
    (found nums : List Text)
    → All IsPhone found
    → IsPhoneList nums
    → IsPhoneList (add_new found nums)
unfolding add_new
add_new-IsPhoneList [] nums _ h = h
add_new-IsPhoneList (s ∷ found) nums (hs, hf) h =
    add_new-IsPhoneList found (if member s nums then nums else nums ++ s ∷ []) hf
      (elim (Bool-cases (member s nums)) [
        | inl old ↦ rw old h
        | inr new ↦ rw new (push-IsPhoneList nums h s hs new)
      ])

-- Every phone read from a card is at least eight characters of digits, with at most a `+` in front,
-- and none is returned twice, whatever the card holds.
pub phones_of_vcard-IsPhoneList :
    (lib : Std) (vcard : Text) → IsPhoneList (phones_of_vcard lib vcard)
unfolding phones_of_vcard
phones_of_vcard-IsPhoneList lib vcard =
    let nums = scan_lines lib (split_runes b'\n' vcard []) [] in
    let held = scan_lines-IsPhoneList lib (split_runes b'\n' vcard []) [] (tt, tt) in
    elim (Bool-cases (is_empty nums)) [
      | inl nothing ↦
          rw nothing (add_new-IsPhoneList (all_waids 0 vcard) nums (all_waids-IsPhone 0 vcard) held)
      | inr something ↦ rw something held
    ]
