-- ===== src/Wabridge/Logs/Silent.antt =====
-- A rotation that fails to open the file again.
use whatsmcp.Base.{
  ℕ, ◌+◌, ◌≡◌, ◌≤◌, ◌<◌, refl, arith, true, false, Option, none, some, List, [], ◌∷◌, length, ltb,
}
use whatsmcp.Wabridge.Logs.{RotatingFile, Disk, open_file, rotate, append, write, writes}
use whatsmcp.Wabridge.Logs.Kept.{logging}

-- A writer on a closed handle that counts from 0.
abbrev pub silent : ℕ → Option (List ℕ) → Option (List ℕ) → RotatingFile
silent max_bytes current backup = record {
  max_bytes = max_bytes;
  size = 0;
  is_open = false;
  current = current;
  backup = backup;
}

abbrev pub AllShort : ℕ → List (Disk × List ℕ) → Type 0
AllShort max_bytes [] = Unit
AllShort max_bytes ((disk, bytes) ∷ steps) = (length bytes ≤ max_bytes) × AllShort max_bytes steps

not_over : (a b : ℕ) → b ≤ a → ltb a (0 + b) ≡ false
not_over a b h = ground arith

over : (a b : ℕ) → a < b → ltb a b ≡ true
over a b h = ground arith

writes-silent :
    (max_bytes : ℕ) (current backup : Option (List ℕ)) (steps : List (Disk × List ℕ))
    → AllShort max_bytes steps
    → writes steps (silent max_bytes current backup) ≡ silent max_bytes current backup
unfolding writes write append
writes-silent max_bytes current backup [] h = refl
writes-silent max_bytes current backup ((disk, bytes) ∷ steps) (short, h) =
    rw (not_over max_bytes (length bytes) short) (writes-silent max_bytes current backup steps h)

-- Where a rotation renames the file and fails to open a new one, no later write that is within the
-- limit reaches a file, whatever the system does by then.
pub rotation_silences :
    (max_bytes : ℕ) (bytes more : List ℕ) (backup : Option (List ℕ)) (disk : Disk)
    (steps : List (Disk × List ℕ))
    → disk.opens ≡ false
    → disk.renames ≡ true
    → max_bytes < length bytes + length more
    → AllShort max_bytes steps
    → writes ((disk, more) ∷ steps) (logging max_bytes bytes backup)
      ≡ silent max_bytes none (some bytes)
unfolding writes write rotate open_file
rotation_silences max_bytes bytes more backup disk steps shut renames full h =
    rw (over max_bytes (length bytes + length more) full, shut, renames)
      (writes-silent max_bytes none (some bytes) steps h)
