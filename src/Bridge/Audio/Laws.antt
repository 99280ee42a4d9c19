-- ===== src/Bridge/Audio/Laws.antt =====
-- The analysis ends, and its results are in the range that WhatsApp takes.
use whatsmcp.Base.{
  leb, ℕ, zero, suc, ◌+◌, ◌-◌, ◌≤◌, ◌≡◌, ◌≢◌, refl, ◌||◌, not, Option, none, some, List, ◌++◌,
  length, take, drop, codes, text_eq, All, arith, by_arms, ltb, if◌then◌else◌,
}
use whatsmcp.Bridge.Audio.{
  Floats, Scan, first_scan, Round, stop, advance, panic, read_page, Pages, scanned, panicked,
  out_of_fuel, scan_pages, Analysis, analyzed, not_ogg, slice_panic, no_result, clamp_duration,
  samples, placeholder_waveform, raw_duration, finish, analyze_ogg_opus, find_head, moved, sum_of,
  little_endian,
}

-- A round that moves on moves on by a byte at least.
abbrev Moves : Round → Type 0
Moves stop = Unit
Moves (advance n st) = 1 ≤ n
Moves panic = Unit

moved-Moves : (n g : ℕ) (o : Option Scan) → 1 ≤ n → Moves (moved n g o)
moved-Moves n g none h = tt
moved-Moves n g (some st) h = h

read_page-Moves : (mem : List ℕ) (rem : ℕ) (st : Scan) → Moves (read_page mem rem st)
unfolding read_page
read_page-Moves mem rem st =
    let segments : ℕ = little_endian 1 (drop 26 mem) in
    let size : ℕ = 27 + segments + sum_of (take segments (drop 27 mem)) in
    let page : Round =
      moved size (little_endian 8 (drop 6 mem))
        (find_head (little_endian 4 (drop 18 mem)) size mem st) in
    let whole : Round = if leb rem (27 + segments) then stop else page in
    by_arms Moves (leb rem 27) stop
      (if not (text_eq (take 4 mem) (codes "OggS")) then advance 1 st else whole) (λ _. tt)
      (λ _.
        by_arms Moves (not (text_eq (take 4 mem) (codes "OggS"))) (advance 1 st) whole
          (λ _. omega arith)
          (λ _.
            by_arms Moves (leb rem (27 + segments)) stop page (λ _. tt)
              (λ _.
                moved-Moves size (little_endian 8 (drop 6 mem))
                  (find_head (little_endian 4 (drop 18 mem)) size mem st) (omega arith))))

-- A loop that ends behind every round that moves on ends.
round_ends :
    (fuel : ℕ) (mem : List ℕ) (rem : ℕ) (st : Scan) (r : Round)
    → ((n : ℕ) (next : Scan) → 1 ≤ n → scan_pages fuel (drop n mem) (rem - n) next ≢ out_of_fuel)
    → Moves r
    → (elim r [
      | stop ↦ scanned st
      | advance n next ↦ scan_pages fuel (drop n mem) (rem - n) next
      | panic ↦ panicked
    ])
      ≢ out_of_fuel
round_ends fuel mem rem st stop ends h = λ e. cc
round_ends fuel mem rem st (advance n next) ends h = ends n next h
round_ends fuel mem rem st panic ends h = λ e. cc

scan_pages_ends :
    (fuel : ℕ) (mem : List ℕ) (rem : ℕ) (st : Scan)
    → rem ≤ fuel
    → scan_pages fuel mem rem st ≢ out_of_fuel
unfolding scan_pages
scan_pages_ends fuel mem zero st le = λ e. cc
scan_pages_ends zero mem (suc rem) st le = absurd (omega arith)
scan_pages_ends (suc fuel) mem (suc rem) st le =
    round_ends fuel mem (suc rem) st (read_page mem (suc rem) st)
      (λ n next h. scan_pages_ends fuel (drop n mem) (suc rem - n) next (omega arith))
      (read_page-Moves mem (suc rem) st)

finish_result :
    (floats : Floats) (len : ℕ) (p : Pages) → p ≢ out_of_fuel → finish floats len p ≢ no_result
finish_result floats len (scanned st) h = λ e. cc
finish_result floats len panicked h = λ e. cc
finish_result floats len out_of_fuel h = absurd (h refl)

-- The loop over the pages ends on every input: as many rounds as there are bytes are enough.
pub analyze_ogg_opus_ends :
    (floats : Floats) (spare bytes : List ℕ) → analyze_ogg_opus floats spare bytes ≢ no_result
unfolding analyze_ogg_opus
analyze_ogg_opus_ends floats spare bytes =
    by_arms (λ a. a ≢ no_result)
      (ltb (length bytes) 4 || not (text_eq (take 4 bytes) (codes "OggS"))) not_ogg
      (finish floats (length bytes)
        (scan_pages (length bytes) (bytes ++ spare) (length bytes) first_scan))
      (λ _. λ e. cc)
      (λ _.
        finish_result floats (length bytes) _
          (scan_pages_ends (length bytes) (bytes ++ spare) (length bytes) first_scan (omega arith)))

-- What the server takes: one to 300 seconds, and 64 samples of at most 100.
abbrev pub InRange : Analysis → Type 0
InRange (analyzed d wave) = (1 ≤ d) × (d ≤ 300) × (length wave ≡ 64) × All (λ v. v ≤ 100) wave
InRange not_ogg = Unit
InRange slice_panic = Unit
InRange no_result = Unit

module _ (floats : Floats) where
  length-samples : (d i n : ℕ) → length (samples floats d i n) ≡ n
  unfolding samples
  length-samples d i zero = refl
  length-samples d i (suc n) = omega (arith, length-samples d (i + 1) n)

  samples_le : (d i n : ℕ) → All (λ v. v ≤ 100) (samples floats d i n)
  unfolding samples
  samples_le d i zero = tt
  samples_le d i (suc n) = (ground arith, samples_le d (i + 1) n)

  clamp_duration_le : (d : ℕ) → (1 ≤ clamp_duration d) × (clamp_duration d ≤ 300)
  unfolding clamp_duration
  clamp_duration_le d = ground arith

  placeholder_waveform_ok :
      (d : ℕ)
      → (length (placeholder_waveform floats d) ≡ 64)
        × All (λ v. v ≤ 100) (placeholder_waveform floats d)
  unfolding placeholder_waveform
  placeholder_waveform_ok d = (length-samples d 0 64, samples_le d 0 64)

  finish-InRange : (len : ℕ) (p : Pages) → InRange (finish floats len p)
  finish-InRange len (scanned st) =
      let d : ℕ = clamp_duration (raw_duration floats len st) in
      let (low, high) = clamp_duration_le (raw_duration floats len st) in
      let (size, values) = placeholder_waveform_ok d in (low, high, size, values)
  finish-InRange len panicked = tt
  finish-InRange len out_of_fuel = tt

  -- Whatever the file holds and the floating point gives, an analysis is in range.
  pub analyze_ogg_opus-InRange :
      (spare bytes : List ℕ) → InRange (analyze_ogg_opus floats spare bytes)
  unfolding analyze_ogg_opus
  analyze_ogg_opus-InRange spare bytes =
      by_arms InRange (ltb (length bytes) 4 || not (text_eq (take 4 bytes) (codes "OggS"))) not_ogg
        (finish floats (length bytes)
          (scan_pages (length bytes) (bytes ++ spare) (length bytes) first_scan))
        (λ _. tt) (λ _. finish-InRange (length bytes) _)
