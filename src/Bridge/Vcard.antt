-- ===== src/Bridge/Vcard.antt =====
-- The phones of a shared contact: `telefonesDoVcard` and `formataContato` of whatsapp-bridge/main.go.
pub mod Phones
use mathlib.Core.List.{filter_map}
use whatsmcp.Base.{
  ℕ, zero, suc, ◌+◌, ◌-◌, Bool, true, false, not, ◌&&◌, ◌||◌, Option, none, some, List, [], ◌∷◌,
  ◌++◌, map, Text, codes, text_eq, is_empty, trim_space, has_prefix, last_index, join, length, take,
  drop, leb, ◌==◌, if◌then◌else◌,
}
use whatsmcp.Bridge.Std.{Std}

-- `strings.Split` at one code point.
unfoldable pub split_runes : ℕ → Text → Text → List Text
split_runes c [] cur = cur ∷ []
split_runes c (d ∷ s) cur =
    let closed = split_runes c s [] in
    let longer = split_runes c s (cur ++ d ∷ []) in if d == c then cur ∷ closed else longer

-- `strings.IndexAny(s, ";:")`.
unfoldable pub index_separator : Text → Option ℕ
index_separator [] = none
index_separator (c ∷ s) =
    if c == b';' || c == b':'
    then some 0
    else elim (index_separator s) [ none ↦ none | some i ↦ some (suc i) ]

-- `strings.Index`.
unfoldable pub index : Text → Text → Option ℕ
index p [] = if is_empty p then some 0 else none
index p (c ∷ s) =
    if has_prefix (c ∷ s) p
    then some 0
    else elim (index p s) [ none ↦ none | some i ↦ some (suc i) ]

abbrev pub is_digit : ℕ → Bool
is_digit c = leb b'0' c && leb c b'9'

-- The name of the property, without a group prefix such as `item1.`.
unfoldable pub property : Text → Text
property line = elim (index_separator line) [
  | none ↦ line
  | some end ↦ elim (last_index b'.' (take end line)) [ none ↦ line | some p ↦ drop (suc p) line ]
]

-- The digits, and a `+` in front.
unfoldable pub digits : Text → Text
digits [] = []
digits (c ∷ s) = let rest = digits s in if is_digit c then c ∷ rest else rest

unfoldable pub clean : Text → Text
unfolding digits
clean [] = []
clean (c ∷ s) = if is_digit c || c == b'+' then c ∷ digits s else digits s

unfoldable pub member : Text → List Text → Bool
member x [] = false
member x (y ∷ ys) = text_eq x y || member x ys

abbrev pub waid : Text
waid = codes "waid="

module _ (lib : Std) where
  unfoldable pub is_tel : Text → Bool
  unfolding property index_separator
  is_tel line = has_prefix (map lib.to_upper (property line)) (codes "TEL")

  -- What stands behind `waid=`, up to the next separator.
  unfoldable pub waid_of : Text → Text
  unfolding index
  waid_of line = elim (index waid (map lib.to_lower line)) [
    | none ↦ []
    | some i ↦
        let rest = drop (i + 5) line in
        elim (index_separator rest) [ none ↦ rest | some j ↦ take j rest ]
  ]

  -- The text behind the last colon.
  unfoldable pub raw_of : Text → Text
  raw_of line = elim (last_index b':' line) [ none ↦ [] | some i ↦ drop (suc i) line ]

  -- One round of the loop over the lines: the number that the line adds, if any.
  unfoldable pub phone_of : Text → Text
  unfolding waid_of raw_of clean
  phone_of line = clean (trim_space (if is_empty (waid_of line) then raw_of line else waid_of line))

  unfoldable pub scan_lines : List Text → List Text → List Text
  unfolding is_tel phone_of member
  scan_lines [] nums = nums
  scan_lines (raw ∷ lines) nums =
      let line = trim_space raw in
      let s = phone_of line in
      scan_lines lines
        (if is_tel line && leb 8 (length s) && not (member s nums) then nums ++ s ∷ [] else nums)

-- The digits that a text begins with, as `\d*` takes them.
unfoldable pub leading_digits : Text → Text
leading_digits [] = []
leading_digits (c ∷ s) = let rest = leading_digits s in if is_digit c then c ∷ rest else []

-- `w`, `a`, `i`, `d` in either case, and `=`.
abbrev pub fold_ascii : ℕ → ℕ
fold_ascii c = if leb b'A' c && leb c b'Z' then c + 32 else c

-- `(?i)waid=(\d{8,})` at the start of a text: the submatch.
unfoldable pub waid_here : Text → Option Text
unfolding leading_digits
waid_here s =
    let number = leading_digits (drop 5 s) in
    if has_prefix (map fold_ascii s) waid && leb 8 (length number) then some number else none

-- `FindAllStringSubmatch`: the matches from the left that do not overlap; the first argument is the
-- rest of the match that is being passed over.
unfoldable pub all_waids : ℕ → Text → List Text
unfolding waid_here
all_waids skip [] = []
all_waids (suc skip) (c ∷ s) = all_waids skip s
all_waids zero (c ∷ s) = elim (waid_here (c ∷ s)) [
  | none ↦ all_waids zero s
  | some number ↦ number ∷ all_waids (4 + length number) s
]

unfoldable pub add_new : List Text → List Text → List Text
unfolding member
add_new [] nums = nums
add_new (s ∷ found) nums = add_new found (if member s nums then nums else nums ++ s ∷ [])

module _ (lib : Std) where
  unfoldable pub phones_of_vcard : Text → List Text
  unfolding scan_lines split_runes add_new all_waids
  phones_of_vcard vcard =
      let nums = scan_lines lib (split_runes b'\n' vcard []) [] in
      if is_empty nums then add_new (all_waids 0 vcard) nums else nums

  -- The log line of a card without a phone is left out.
  unfoldable pub format_contact : Text → Text → Text
  unfolding phones_of_vcard
  format_contact name vcard =
      let tels = phones_of_vcard vcard in
      let s = codes "[contact] " ++ name in
      if is_empty tels then s else s ++ (codes " - " ++ join tels (codes ", "))
