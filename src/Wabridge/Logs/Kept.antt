-- ===== src/Wabridge/Logs/Kept.antt =====
-- What is left of a log in its two files, and what is not where a rotation failed.
use mathlib.Core.List.{append_assoc, append-nil}
use whatsmcp.Base.{
  ℕ, zero, suc, ◌+◌, ◌≡◌, ◌≤◌, refl, ap, arith, true, false, Option, some, List, [], ◌∷◌, ◌++◌,
  length, take, ltb, length-append, Bool-cases, inl, inr, if◌then◌else◌,
}
use whatsmcp.Wabridge.Logs.{RotatingFile, Disk, bytes_of, open_file, rotate, append, write, writes}

-- A writer on an open file with these bytes.
abbrev pub logging : ℕ → List ℕ → Option (List ℕ) → RotatingFile
logging max_bytes bytes backup = record {
  max_bytes = max_bytes;
  size = length bytes;
  is_open = true;
  current = some bytes;
  backup = backup;
}

-- The system does all that is asked of it, and a write is not longer than the limit.
abbrev pub IsHealthy : ℕ → Disk × List ℕ → Type 0
IsHealthy max_bytes step =
    (step.0.opens ≡ true)
    × (step.0.stats ≡ true)
    × (step.0.renames ≡ true)
    × (length (step.1) ≤ step.0.room)
    × (length (step.1) ≤ max_bytes)

abbrev pub AllHealthy : ℕ → List (Disk × List ℕ) → Type 0
AllHealthy max_bytes [] = Unit
AllHealthy max_bytes (s ∷ steps) = IsHealthy max_bytes s × AllHealthy max_bytes steps

-- Everything that the steps write.
abbrev pub logged : List (Disk × List ℕ) → List ℕ
logged [] = []
logged ((disk, bytes) ∷ steps) = bytes ++ logged steps

take_all : (n : ℕ) (xs : List ℕ) → length xs ≤ n → take n xs ≡ xs
take_all zero [] h = refl
take_all (suc n) [] h = refl
take_all zero (x ∷ xs) h = absurd (omega arith)
take_all (suc n) (x ∷ xs) h = ap (λ r. x ∷ r) (take_all n xs (omega arith))

zero_add : (n : ℕ) → 0 + n ≡ n
zero_add n = omega arith

le_of_ltb : (a b : ℕ) → ltb a b ≡ false → b ≤ a
le_of_ltb a b e = ground arith

-- The state behind a healthy write.
abbrev behind : ℕ → List ℕ → Option (List ℕ) → List ℕ → RotatingFile
behind max_bytes bytes backup more =
    if ltb max_bytes (length bytes + length more)
    then logging max_bytes more (some bytes)
    else logging max_bytes (bytes ++ more) backup

write-logging :
    (max_bytes : ℕ) (bytes : List ℕ) (backup : Option (List ℕ)) (step : Disk × List ℕ)
    → IsHealthy max_bytes step
    → (write (step.0) (step.1) (logging max_bytes bytes backup)).0
      ≡ behind max_bytes bytes backup (step.1)
unfolding write rotate open_file append
write-logging max_bytes bytes backup (disk, more) (opens, stats, renames, room, limit) =
    elim (Bool-cases (ltb max_bytes (length bytes + length more))) [
      | inl e ↦
          rw (e, opens, stats, renames, take_all disk.room more room)
            (ap (λ n. record (logging max_bytes more (some bytes)) { size = n })
              (zero_add (length more)))
      | inr e ↦ rw (e, take_all disk.room more room, length-append bytes more) refl
    ]

-- The writer goes on: what it had and all that was logged ends with its two files, and the file at the
-- path is within the limit where it was before.
abbrev pub KeepsEnd : ℕ → List ℕ → Option (List ℕ) → List ℕ → RotatingFile → Type 0
KeepsEnd max_bytes bytes backup text rf =
    (kept : List ℕ) × (old : Option (List ℕ)) × (lost : List ℕ) × (rf ≡ logging max_bytes kept old)
    × (bytes_of backup ++ (bytes ++ text) ≡ lost ++ (bytes_of old ++ kept))
    × (length bytes ≤ max_bytes → length kept ≤ max_bytes)

-- Where the system does all that is asked of it and no write is longer than the limit, nothing of a
-- log is lost but what stands before its two files, and the file at the path stays within the limit.
pub writes-KeepsEnd :
    (max_bytes : ℕ) (steps : List (Disk × List ℕ)) (bytes : List ℕ) (backup : Option (List ℕ))
    → AllHealthy max_bytes steps
    → KeepsEnd max_bytes bytes backup (logged steps) (writes steps (logging max_bytes bytes backup))
unfolding writes
writes-KeepsEnd max_bytes [] bytes backup h =
    (bytes, backup, [], refl, ap (λ t. bytes_of backup ++ t) (append-nil bytes), λ k. k)
writes-KeepsEnd max_bytes ((disk, more) ∷ steps) bytes backup (h, hs) =
    elim (Bool-cases (ltb max_bytes (length bytes + length more))) [
      | inl e ↦
          let (kept, old, lost, at, spells, within) =
            writes-KeepsEnd max_bytes steps more (some bytes) hs in
          (
            kept,
            old,
            bytes_of backup ++ lost,
            rw (write-logging max_bytes bytes backup (disk, more) h, e) at,
            rw (spells, append_assoc (bytes_of backup) lost (bytes_of old ++ kept)) refl,
            λ _. within (h.4),
          )
      | inr e ↦
          let (kept, old, lost, at, spells, within) =
            writes-KeepsEnd max_bytes steps (bytes ++ more) backup hs in
          (
            kept,
            old,
            lost,
            rw (write-logging max_bytes bytes backup (disk, more) h, e) at,
            rw (← append_assoc bytes more (logged steps)) spells,
            λ _. within (
                omega (
                  arith,
                  le_of_ltb max_bytes (length bytes + length more) e,
                  length-append bytes more,
                )),
          )
    ]
