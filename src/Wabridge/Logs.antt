-- ===== src/Wabridge/Logs.antt =====
-- The log file that rotates, platform/logging/rotating_file.go.
pub mod Laws
pub mod Kept
pub mod Silent
use whatsmcp.Base.{
  ℕ, ◌+◌, ◌≡◌, Bool, true, false, not, Option, none, some, List, [], ◌∷◌, ◌++◌, length, take, ltb,
  ◌==◌, if◌then◌else◌,
}

-- The writer, with the two files of the disk that it works on: the one at its path, if there is one,
-- and the backup. `is_open` is false where `file` is a closed handle.
pub record RotatingFile : Type 0 where
  pub max_bytes : ℕ
  pub size : ℕ
  pub is_open : Bool
  pub current : Option (List ℕ)
  pub backup : Option (List ℕ)

-- What the system does in one call: whether it opens, examines and renames, and for how many bytes
-- the disk has room.
pub record Disk : Type 0 where
  pub opens : Bool
  pub stats : Bool
  pub renames : Bool
  pub room : ℕ

abbrev pub default_max_log_bytes : ℕ
default_max_log_bytes = 1048576

abbrev pub bytes_of : Option (List ℕ) → List ℕ
bytes_of none = []
bytes_of (some bytes) = bytes

-- `open`: the file is made where there is none, and appended to.
unfoldable pub open_file : Disk → RotatingFile → RotatingFile × Bool
open_file disk rf =
    let made : RotatingFile = record rf { current = some (bytes_of rf.current) } in
    if not disk.opens
    then (rf, false)
    else if not disk.stats
    then (made, false)
    else (record made { is_open = true; size = length (bytes_of rf.current) }, true)

abbrev pub at_path : ℕ → Option (List ℕ) → Option (List ℕ) → RotatingFile
at_path max_bytes current backup = record {
  max_bytes = max_bytes;
  size = 0;
  is_open = false;
  current = current;
  backup = backup;
}

abbrev pub or_default : ℕ → ℕ
or_default max_bytes = if max_bytes == 0 then default_max_log_bytes else max_bytes

-- `NewRotatingFile` at a path with these files; a negative limit is given as 0.
unfoldable pub new_rotating_file :
    Disk → ℕ → (current backup : Option (List ℕ)) → Option RotatingFile
unfolding open_file
new_rotating_file disk max_bytes current backup =
    let (rf, opened) = open_file disk (at_path (or_default max_bytes) current backup) in
    if opened then some rf else none

-- `os.Rename`: without a file at the path it fails.
abbrev pub renamed : Bool → Option (List ℕ) → RotatingFile → RotatingFile
renamed true (some bytes) rf = record rf { current = none; backup = some bytes }
renamed true none rf = rf
renamed false current rf = rf

-- `rotate`; the error of the rename is ignored.
unfoldable pub rotate : Disk → RotatingFile → RotatingFile × Bool
unfolding open_file
rotate disk rf =
    open_file disk (renamed disk.renames rf.current (record rf { is_open = false; size = 0 }))

-- A full disk takes the bytes that it has room for.
abbrev pub taken : ℕ → List ℕ → List ℕ
taken room bytes = take room bytes

-- The write to the file: how many bytes it took, and whether there was no error. A closed handle
-- takes none.
unfoldable pub append : Disk → List ℕ → RotatingFile → RotatingFile × (ℕ × Bool)
append disk bytes rf =
    let n = length (taken disk.room bytes) in
    if not rf.is_open then (rf, (0, false)) else (
      record rf {
        current = some (bytes_of rf.current ++ taken disk.room bytes);
        size = rf.size + n;
      },
      (n, n == length bytes),
    )

abbrev pub append_rotated : Disk → List ℕ → RotatingFile × Bool → RotatingFile × (ℕ × Bool)
append_rotated disk bytes (rf, rotated) = if rotated then append disk bytes rf else (rf, (0, false))

-- `Write`.
unfoldable pub write : Disk → List ℕ → RotatingFile → RotatingFile × (ℕ × Bool)
unfolding rotate append
write disk bytes rf =
    if ltb rf.max_bytes (rf.size + length bytes)
    then append_rotated disk bytes (rotate disk rf)
    else append disk bytes rf

-- The writes of the program, in the order in which they take the mutex.
unfoldable pub writes : List (Disk × List ℕ) → RotatingFile → RotatingFile
unfolding write
writes [] rf = rf
writes ((disk, bytes) ∷ rest) rf = writes rest ((write disk bytes rf).0)
