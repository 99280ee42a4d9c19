-- ===== src/Wabridge/Logs/Laws.antt =====
-- The size that the writer keeps, and what a failed rotation leaves.
use whatsmcp.Base.{
  ℕ, ◌+◌, ◌≡◌, inl, inr, refl, arith, Bool, true, false, Option, none, some, List, [], ◌∷◌, length,
  take, ltb, length-append, by_arms, Bool-cases,
}
use whatsmcp.Wabridge.Logs.{
  RotatingFile, Disk, bytes_of, open_file, renamed, rotate, append, append_rotated, write, writes,
}

-- An open writer knows how long its file is.
abbrev pub IsMeasured : RotatingFile → Type 0
IsMeasured rf = rf.is_open ≡ true → rf.size ≡ length (bytes_of rf.current)

abbrev Measured : {A : Type 0} → RotatingFile × A → Type 0
Measured r = IsMeasured (r.0)

open_file-Measured :
    (disk : Disk) (rf : RotatingFile) → rf.is_open ≡ false → Measured (open_file disk rf)
unfolding open_file
open_file-Measured disk rf closed = ground arith

renamed-is_open :
    (b : Bool) (current : Option (List ℕ)) (rf : RotatingFile)
    → (renamed b current rf).is_open ≡ rf.is_open
renamed-is_open true none rf = refl
renamed-is_open true (some bytes) rf = refl
renamed-is_open false current rf = refl

append-Measured :
    (disk : Disk) (bytes : List ℕ) (rf : RotatingFile)
    → IsMeasured rf
    → Measured (append disk bytes rf)
unfolding append
append-Measured disk bytes rf h = elim (Bool-cases rf.is_open) [
  | inl e ↦
      rw e (λ _. omega (arith, h e, length-append (bytes_of rf.current) (take disk.room bytes)))
  | inr e ↦ rw e (λ k. absurd (cc))
]

append_rotated-Measured :
    (disk : Disk) (bytes : List ℕ) (r : RotatingFile × Bool)
    → Measured r
    → Measured (append_rotated disk bytes r)
append_rotated-Measured disk bytes (rf, true) h = append-Measured disk bytes rf h
append_rotated-Measured disk bytes (rf, false) h = h

write-Measured :
    (disk : Disk) (bytes : List ℕ) (rf : RotatingFile)
    → IsMeasured rf
    → Measured (write disk bytes rf)
unfolding write rotate
write-Measured disk bytes rf h =
    let closed : RotatingFile = record rf { is_open = false; size = 0 } in
    by_arms Measured (ltb rf.max_bytes (rf.size + length bytes))
      (append_rotated disk bytes (rotate disk rf)) (append disk bytes rf)
      (λ _. append_rotated-Measured disk bytes (rotate disk rf) (
        open_file-Measured disk (renamed disk.renames rf.current closed)
          (renamed-is_open disk.renames rf.current closed)))
      (λ _. append-Measured disk bytes rf h)

-- Whatever the system opens, examines, renames or has room for, a writer whose file is open knows
-- its length.
pub writes-IsMeasured :
    (steps : List (Disk × List ℕ)) (rf : RotatingFile)
    → IsMeasured rf
    → IsMeasured (writes steps rf)
unfolding writes
writes-IsMeasured [] rf h = h
writes-IsMeasured ((disk, bytes) ∷ steps) rf h =
    writes-IsMeasured steps ((write disk bytes rf).0) (write-Measured disk bytes rf h)
