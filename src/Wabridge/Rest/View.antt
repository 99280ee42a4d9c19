-- ===== src/Wabridge/Rest/View.antt =====
-- The view of the log on the file that rotates.
use whatsmcp.Base.{
  if◌then◌else◌, ℕ, ◌-◌, ◌≡◌, ◌≤◌, refl, sym, ap, ◌∙◌, arith, true, Option, none, some, List, [],
  ◌++◌, length, take, drop, ltb, take-append-drop, Bool-cases, inl, inr, length-drop,
}
use mathlib.Core.List.{append_assoc}
use whatsmcp.Wabridge.Logs.{RotatingFile, Disk, bytes_of, writes}
use whatsmcp.Wabridge.Logs.Kept.{logging, AllHealthy, logged, writes-KeepsEnd}
use whatsmcp.Wabridge.Rest.{LogFile, WaResponse, log_text, serve_log}

-- The file at the path of a writer, which the system examines and seeks in.
abbrev pub log_at : RotatingFile → Option LogFile
log_at rf = of_current rf.current
  where
    of_current : Option (List ℕ) → Option LogFile
    of_current none = none
    of_current (some bytes) = some (record { bytes = bytes; stats = true; seeks = true })

-- The response is the end of a text, all of the file or as much of it as the tail.
abbrev pub ShowsEnd : ℕ → (text file : List ℕ) → WaResponse → Type 0
ShowsEnd tail text file response =
    (front : List ℕ) × (shown : List ℕ) × (response ≡ log_text shown)
    × (text ≡ front ++ shown)
    × (length shown ≡ (if ltb tail (length file) then tail else length file))

lt_of_over : (a b : ℕ) → ltb a b ≡ true → a ≤ b
lt_of_over a b e = ground arith

serve_log-ShowsEnd :
    (tail : ℕ) (bytes : List ℕ)
    → ShowsEnd tail bytes bytes
        (serve_log tail (some (record { bytes = bytes; stats = true; seeks = true })))
unfolding serve_log
serve_log-ShowsEnd tail bytes = elim (Bool-cases (ltb tail (length bytes))) [
  | inl e ↦
      let n : ℕ = length bytes - tail in
      (
        take n bytes,
        drop n bytes,
        rw e refl,
        sym (take-append-drop n bytes),
        rw e (omega (arith, length-drop n bytes, lt_of_over tail (length bytes) e)),
      )
  | inr e ↦ ([], bytes, rw e refl, refl, rw e refl)
]

regroup :
    (text lost old kept front shown : List ℕ)
    → text ≡ lost ++ (old ++ kept)
    → kept ≡ front ++ shown
    → text ≡ ((lost ++ old) ++ front) ++ shown
regroup text lost old kept front shown spells ends =
    spells
    ∙ ap (λ k. lost ++ (old ++ k)) ends
    ∙ sym (append_assoc lost old (front ++ shown))
    ∙ sym (append_assoc (lost ++ old) front shown)

-- Where the system does all that is asked of the writer and no write is longer than its limit, the
-- view of the log shows the end of all that was logged: all of the log file, or exactly the tail's size
-- of it where it is longer.
pub serve_log-writes :
    (tail max_bytes : ℕ) (steps : List (Disk × List ℕ)) (bytes : List ℕ) (backup : Option (List ℕ))
    → AllHealthy max_bytes steps
    → ShowsEnd tail
        (bytes_of backup ++ (bytes ++ logged steps))
        (bytes_of (writes steps (logging max_bytes bytes backup)).current)
        (serve_log tail (log_at (writes steps (logging max_bytes bytes backup))))
serve_log-writes tail max_bytes steps bytes backup h =
    let text : List ℕ = bytes_of backup ++ (bytes ++ logged steps) in
    let (kept, old, lost, at, spells, _) = writes-KeepsEnd max_bytes steps bytes backup h in
    let (front, shown, answers, ends, short) = serve_log-ShowsEnd tail kept in
    (
      (lost ++ bytes_of old) ++ front,
      shown,
      rw at answers,
      regroup text lost (bytes_of old) kept front shown spells ends,
      rw at short,
    )
