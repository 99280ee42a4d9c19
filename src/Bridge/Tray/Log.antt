-- ===== src/Bridge/Tray/Log.antt =====
-- The log of whatsapp-bridge, trimmed and shown.
use whatsmcp.Base.{
  ℕ, ◌-◌, ◌≡◌, ◌≤◌, ◌<◌, ◌⊎◌, inl, inr, refl, sym, arith, Bool, true, false, some, List, [], ◌∷◌,
  ◌++◌, Text, length, take, take-append-drop, ltb, Bool-cases, length-drop,
}
use whatsmcp.Qr.{FileWrite, written, not_written, Desk, set_file, open_viewer}
use whatsmcp.Bridge.Tray.{
  log_cap_bytes, tail_bytes, log_path, backup_path, tail_path, Trim, rotate_log, last_bytes,
  show_from, show_log_tail,
}

last_bytes_lem :
    (bytes : List ℕ)
    → (earlier : List ℕ) × (bytes ≡ earlier ++ last_bytes bytes)
      × (length (last_bytes bytes) ≤ tail_bytes)
last_bytes_lem bytes = elim (Bool-cases (ltb tail_bytes (length bytes))) [
  | inl long ↦ rw long (
    take (length bytes - tail_bytes) bytes,
    sym (take-append-drop (length bytes - tail_bytes) bytes),
    ground (arith, length-drop (length bytes - tail_bytes) bytes),
  )
  | inr short ↦ rw short ([], refl, ground arith)
]

-- What the viewer was opened on shows the end of a log.
pub record ShowsEnd (bytes : List ℕ) (limit : ℕ) (before after : Desk) : Type 0 where
  pub path : Text
  pub earlier : List ℕ
  pub shown : List ℕ
  pub opened : after.viewed ≡ before.viewed ++ (path, some shown) ∷ []
  pub is_end : bytes ≡ earlier ++ shown
  pub is_short : length shown ≤ limit
  pub kept : after.files log_path ≡ some bytes

abbrev pub limit_of : Bool → FileWrite → List ℕ → ℕ
limit_of true written bytes = tail_bytes
limit_of _ _ bytes = length bytes

whole_log :
    (bytes : List ℕ) (before d : Desk)
    → d.viewed ≡ before.viewed
    → d.files log_path ≡ some bytes
    → ShowsEnd bytes (length bytes) before (open_viewer log_path d)
unfolding open_viewer
whole_log bytes before d same at = record {
  path = log_path;
  earlier = [];
  shown = bytes;
  opened = rw (same, at) refl;
  is_end = refl;
  is_short = omega arith;
  kept = at;
}

show_log_tail_lem :
    (reads : Bool) (w : FileWrite) (bytes : List ℕ) (d : Desk)
    → d.files log_path ≡ some bytes
    → ShowsEnd bytes (limit_of reads w bytes) d (show_from reads w (some bytes) d)
unfolding open_viewer set_file
show_log_tail_lem false w bytes d at = whole_log bytes d d refl at
show_log_tail_lem true (not_written leaves) bytes d at =
    whole_log bytes d (set_file tail_path leaves d) refl at
show_log_tail_lem true written bytes d at =
    let (earlier, same, short) = last_bytes_lem bytes in
    record {
      path = tail_path;
      earlier = earlier;
      shown = last_bytes bytes;
      opened = refl;
      is_end = same;
      is_short = short;
      kept = at;
    }

-- The view of a log that is there opens the viewer once, on a file with the end of the log, of at most
-- 64 KB where the log is read and its end written, and else of all of it; the log stays.
pub show_log_tail-ShowsEnd :
    (reads : Bool) (w : FileWrite) (bytes : List ℕ) (d : Desk)
    → d.files log_path ≡ some bytes
    → ShowsEnd bytes (limit_of reads w bytes) d (show_log_tail reads w d)
unfolding show_log_tail
show_log_tail-ShowsEnd reads w bytes d at = rw at (show_log_tail_lem reads w bytes d at)

-- A log that the system examines, reads, copies and empties is below its cap then, and nothing of it is
-- lost: it is as it was, with its backup, or all of it is the backup.
pub rotate_log-Keeps :
    (bytes : List ℕ) (d : Desk)
    → d.files log_path ≡ some bytes
    → let sys : Trim = record { stats = true; reads = true; writes = written; truncates = true } in
      let after = rotate_log sys d in
      (rest : List ℕ) × (after.files log_path ≡ some rest)
      × (length rest < log_cap_bytes)
      × (((rest ≡ bytes) × (after.files backup_path ≡ d.files backup_path))
          ⊎ ((rest ≡ []) × (after.files backup_path ≡ some bytes)))
unfolding rotate_log set_file
rotate_log-Keeps bytes d at = rw at (elim (Bool-cases (ltb (length bytes) log_cap_bytes)) [
  | inl short ↦ rw short (bytes, at, ground arith, inl (refl, refl))
  | inr long ↦ rw long ([], refl, omega arith, inr (refl, refl))
])

-- With the copy not made, a log at its cap is emptied all the same: it is in neither file.
rotate_log-Loses :
    (bytes : List ℕ) (w : FileWrite) (d : Desk)
    → d.files log_path ≡ some bytes
    → log_cap_bytes ≤ length bytes
    → let sys : Trim = record { stats = true; reads = false; writes = w; truncates = true } in
      let after = rotate_log sys d in
      (after.files log_path ≡ some []) × (after.files backup_path ≡ d.files backup_path)
unfolding rotate_log set_file
rotate_log-Loses bytes w d at full =
    let long : ltb (length bytes) log_cap_bytes ≡ false = ground arith in
    rw at (rw long (refl, refl))
