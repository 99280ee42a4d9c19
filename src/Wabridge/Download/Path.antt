-- ===== src/Wabridge/Download/Path.antt =====
-- `extractDirectPathFromURL` of platform/wa/download.go beside that of whatsapp-bridge/main.go.
use whatsmcp.Base.{
  ℕ, suc, ◌+◌, ◌==◌, ◌≡◌, refl, ap, Option, none, some, [], ◌∷◌, ◌++◌, Text, codes, drop, cut,
  has_prefix, Bool-cases, Option-cases, inl, inr,
}
use whatsmcp.Bridge.Vcard.{index}
use whatsmcp.Bridge.Download.{extract_direct_path_from_url}
use whatsmcp.Wabridge.Download.{parts_at, first_part, split_in_two, direct_path_of}

first_part-cons :
    (c : ℕ) (sep s : Text) (i : Option ℕ)
    → first_part (parts_at sep (c ∷ s) (elim i [ none ↦ none | some k ↦ some (suc k) ]))
      ≡ c ∷ first_part (parts_at sep s i)
first_part-cons c sep s none = refl
first_part-cons c sep s (some i) = refl

-- Both ways to end a text at its first `?` agree.
first_part-split_in_two : (s : Text) → first_part (split_in_two (codes "?") s) ≡ (cut b'?' s).0
unfolding split_in_two index cut has_prefix
first_part-split_in_two [] = refl
first_part-split_in_two (c ∷ s) = elim (Bool-cases (c == b'?')) [
  | inl e ↦ rw e refl
  | inr e ↦
      rw (e, first_part-cons c (codes "?") s (index (codes "?") s))
        (ap (λ t. c ∷ t) (first_part-split_in_two s))
]

-- The two programs derive the same direct path from a URL.
pub direct_path_of-eq : (url : Text) → direct_path_of url ≡ extract_direct_path_from_url url
unfolding direct_path_of extract_direct_path_from_url split_in_two
direct_path_of-eq url = elim (Option-cases (index (codes ".net/") url)) [
  | inl e ↦ rw e refl
  | inr (i, e) ↦ rw e (ap (λ t. codes "/" ++ t) (first_part-split_in_two (drop (i + 5) url)))
]
