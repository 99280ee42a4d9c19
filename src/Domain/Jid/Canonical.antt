-- ===== src/Domain/Jid/Canonical.antt =====
-- The JIDs that `NewJID` gives are the texts in canonical form.
use mathlib.Core.Equiv.{Iso, IsEquiv, iso_to_equiv}
use mathlib.Core.HLevel.{Σ_prop_path}
use native.Mathlib.Nat.{ℕ_set}
use whatsmcp.Base.{
  ℕ, suc, ◌+◌, ◌≡◌, refl, sym, ◌∙◌, Bool, true, false, not, ◌&&◌, ◌||◌, ◌==◌, Option, none, some,
  ◌∷◌, Result, ok, Text, text_eq, text_eq_iff, text_eq_refl, trim_space, last_index,
  last_index-append, length, length-append, length_pos, take, drop, leb, ◌<◌, arith,
}
use whatsmcp.Domain.Error.{DomainError}
use whatsmcp.Domain.Jid.{Jid, split_at, new_jid, to_string}
use whatsmcp.Domain.Jid.RoundTrip.{
  IsParsed, to_string_of_IsParsed, new_jid_sound, new_jid-to_string,
}

-- A JID that `NewJID` gives back from its own text.
abbrev pub ParsedJid : Type 0
ParsedJid = (j : Jid) × (new_jid (to_string j) ≡ ok j)

abbrev splits_inside : Text → Option ℕ → Bool
splits_inside s none = false
splits_inside s (some i) = not (i == 0 || leb (length s) (suc i))

-- No space at either end, and the last `@` is neither the first nor the last code point.
unfoldable pub is_canonical : Text → Bool
unfolding trim_space last_index text_eq
is_canonical s = text_eq (trim_space s) s && splits_inside s (last_index b'@' s)

abbrev pub CanonicalText : Type 0
CanonicalText = (s : Text) × (is_canonical s ≡ true)

Result-IsSet : IsSet (Result DomainError Jid)
Result-IsSet = hlevel (ℕ_set)

abbrev parsed_as : Jid → Result DomainError Jid
parsed_as j = ok j

ok_inj : (j k : Jid) → parsed_as j ≡ parsed_as k → j ≡ k
ok_inj j k h = cc

-- What stands on both sides of the last `@` makes the text canonical.
is_canonical_of_IsParsed :
    (j : Jid)
    → IsParsed j
    → trim_space (to_string j) ≡ to_string j
    → is_canonical (to_string j) ≡ true
unfolding is_canonical
is_canonical_of_IsParsed j p trimmed =
    let whole = to_string_of_IsParsed j p in
    let at : last_index b'@' (to_string j) ≡ some (length j.user) =
      rw whole (last_index-append b'@' j.user j.server p.plain) in
    let size : length (to_string j) ≡ length j.user + suc (length j.server) =
      rw whole (length-append j.user (b'@' ∷ j.server)) in
    rw (trimmed, text_eq_refl (to_string j), at, size)
      (inside (length j.user) (length j.server) (length_pos j.user p.user)
        (length_pos j.server p.server))
  where
    inside : (m n : ℕ) → 0 < m → 0 < n → not (m == 0 || leb (m + suc n) (suc m)) ≡ true
    inside m n h k = ground arith

split_at-inside :
    (s : Text) (o : Option ℕ) → splits_inside s o ≡ true → (j : Jid) × (split_at s o ≡ ok j)
unfolding split_at
split_at-inside s none h = cc
split_at-inside s (some i) h = (
  record { user = take i s; server = drop (suc i) s },
  rw (test_false (i == 0 || leb (length s) (suc i)) h) refl,
)
  where
    test_false : (b : Bool) → not b ≡ true → b ≡ false
    test_false true e = cc
    test_false false e = refl

and_true : (a b : Bool) → a && b ≡ true → (a ≡ true) × (b ≡ true)
and_true true b h = (refl, h)
and_true false b h = cc

module _ (s : Text) (h : is_canonical s ≡ true) where
  trimmed : trim_space s ≡ s
  unfolding is_canonical
  trimmed =
      (text_eq_iff (trim_space s) s).0
        ((and_true (text_eq (trim_space s) s) (splits_inside s (last_index b'@' s)) h).0)

  parses : (j : Jid) × (new_jid s ≡ ok j)
  unfolding is_canonical new_jid
  parses = rw trimmed (
      split_at-inside s (last_index b'@' s)
        ((and_true (text_eq (trim_space s) s) (splits_inside s (last_index b'@' s)) h).1))

-- The text of a JID, and the JID of a text.
pub spelled : ParsedJid → CanonicalText
spelled (j, h) =
    let (p, whole) = new_jid_sound (to_string j) j h in
    (to_string j, is_canonical_of_IsParsed j p (sym whole))

parsed : CanonicalText → ParsedJid
parsed (s, h) = let (j, at) = parses s h in (j, new_jid-to_string s j at)

spelled-parsed : (t : CanonicalText) → spelled (parsed t) ≡ t
unfolding spelled parsed
spelled-parsed (s, h) =
    let (j, at) = parses s h in Σ_prop_path (λ _. hlevel) ((new_jid_sound s j at).1 ∙ trimmed s h)

parsed-spelled : (j : ParsedJid) → parsed (spelled j) ≡ j
unfolding spelled parsed
parsed-spelled (j, h) =
    let t = spelled (j, h) in
    let (k, at) = parses (t.0) (t.1) in
    Σ_prop_path (λ _. Result-IsSet _ _) (ok_inj k j (sym at ∙ h))

-- Printing is an equivalence between the JIDs that `NewJID` gives back and the canonical texts: no
-- two of these JIDs print alike, and every canonical text is the print of one of them.
pub spelled-IsEquiv : IsEquiv spelled
spelled-IsEquiv = (iso_to_equiv jid_iso).1
  where
    jid_iso : Iso ParsedJid CanonicalText
    jid_iso = record { fun = spelled; inv = parsed; rinv = spelled-parsed; linv = parsed-spelled }
