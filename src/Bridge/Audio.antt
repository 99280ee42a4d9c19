-- ===== src/Bridge/Audio.antt =====
-- `analyzeOggOpus` and `placeholderWaveform` of whatsapp-bridge/main.go. A slice reaches as far as
-- the memory behind the data: `spare` is what lies between its length and its capacity.
pub mod Laws
use whatsmcp.Base.{
  ℕ, zero, suc, ◌+◌, ◌-◌, ◌*◌, ◌%◌, ◌^◌, Bool, true, false, not, ◌&&◌, ◌||◌, ◌==◌, Option, none,
  some, List, [], ◌∷◌, ◌++◌, Text, codes, text_eq, length, take, drop, ltb, leb, if◌then◌else◌,
}
use whatsmcp.Bridge.Vcard.{index}

-- The machine's floating point, where the code uses it: the ceiling of a quotient as a `uint32`, the
-- estimate from the size, and a sample of the wave, truncated, `none` if it is negative.
pub record Floats : Type 0 where
  pub ceil_quotient : ℕ → ℕ → ℕ
  pub estimate : ℕ → ℕ
  pub sample : ℕ → ℕ → Option ℕ

-- `binary.LittleEndian` of the first `n` bytes.
unfoldable pub little_endian : ℕ → List ℕ → ℕ
little_endian zero bytes = 0
little_endian (suc n) [] = 0
little_endian (suc n) (b ∷ bytes) = b + 256 * little_endian n bytes

unfoldable pub sum_of : List ℕ → ℕ
sum_of [] = 0
sum_of (b ∷ bytes) = b + sum_of bytes

-- `i : j` of a slice whose memory is `mem`; `none` is the panic.
unfoldable pub slice : ℕ → ℕ → List ℕ → Option (List ℕ)
slice i j mem = if leb j (length mem) then some (drop i (take j mem)) else none

-- The variables of the scan.
pub record Scan : Type 0 where
  pub last_granule : ℕ
  pub sample_rate : ℕ
  pub pre_skip : ℕ
  pub found_opus_head : Bool

abbrev pub first_scan : Scan
first_scan = record { last_granule = 0; sample_rate = 48000; pre_skip = 0; found_opus_head = false }

abbrev set_head : Scan → List ℕ → Option (List ℕ) → Option Scan
set_head st skip none = none
set_head st skip (some rate) = some (record st {
  pre_skip = little_endian 2 skip;
  sample_rate = little_endian 4 rate;
  found_opus_head = true;
})

-- The header at `head_pos` of a page of `n` bytes, whose memory is `mem`: the marker is skipped, and
-- the offsets 10 and 12 count from behind it.
unfoldable pub read_head : ℕ → List ℕ → ℕ → Scan → Option Scan
unfolding slice little_endian
read_head n mem head_pos st =
    if leb n (head_pos + 12)
    then some st
    else let pos = head_pos + 8 in
      if ltb n (pos + 12)
      then some st
      else set_head st (drop (pos + 10) mem) (slice (pos + 12) (pos + 16) mem)

abbrev at_head : ℕ → List ℕ → Scan → Option ℕ → Option Scan
at_head n mem st none = some st
at_head n mem st (some pos) = read_head n mem pos st

abbrev in_page : ℕ → List ℕ → Scan → Option (List ℕ) → Option Scan
in_page n mem st none = none
in_page n mem st (some page) = at_head n mem st (index (codes "OpusHead") page)

-- The search for the header in one of the first pages; `none` is a panic.
unfoldable pub find_head : ℕ → ℕ → List ℕ → Scan → Option Scan
unfolding slice read_head index
find_head seq n mem st =
    if st.found_opus_head || ltb 1 seq then some st else in_page n mem st (slice 0 n mem)

-- One round: the loop ends, or moves on by a number of bytes, or panics.
pub data Round : Type 0 where
  stop : Round
  advance : ℕ → Scan → Round
  panic : Round

abbrev pub keep_granule : ℕ → Scan → Scan
keep_granule g st = if g == 0 then st else record st { last_granule = g }

abbrev pub moved : ℕ → ℕ → Option Scan → Round
moved n g none = panic
moved n g (some st) = advance n (keep_granule g st)

-- `mem` is the memory from `i` on, of which `rem` bytes are data.
unfoldable pub read_page : List ℕ → ℕ → Scan → Round
unfolding text_eq little_endian sum_of find_head
read_page mem rem st =
    if leb rem 27
    then stop
    else if not (text_eq (take 4 mem) (codes "OggS"))
    then advance 1 st
    else let segments = little_endian 1 (drop 26 mem) in
      if leb rem (27 + segments)
      then stop
      else let size = 27 + segments + sum_of (take segments (drop 27 mem)) in
        moved size (little_endian 8 (drop 6 mem))
          (find_head (little_endian 4 (drop 18 mem)) size mem st)

pub data Pages : Type 0 where
  scanned : Scan → Pages
  panicked : Pages
  out_of_fuel : Pages

-- The loop over the pages.
unfoldable pub scan_pages : ℕ → List ℕ → ℕ → Scan → Pages
unfolding read_page
scan_pages fuel mem zero st = scanned st
scan_pages zero mem (suc rem) st = out_of_fuel
scan_pages (suc fuel) mem (suc rem) st = elim (read_page mem (suc rem) st) [
  | stop ↦ scanned st
  | advance n next ↦ scan_pages fuel (drop n mem) (suc rem - n) next
  | panic ↦ panicked
]

pub data Analysis : Type 0 where
  analyzed : ℕ → List ℕ → Analysis
  not_ogg : Analysis
  slice_panic : Analysis
  no_result : Analysis

unfoldable pub clamp_duration : ℕ → ℕ
clamp_duration d = if ltb d 1 then 1 else if ltb 300 d then 300 else d

module _ (floats : Floats) where
  -- The sample as a byte between 0 and 100.
  abbrev clamp_sample : Option ℕ → ℕ
  clamp_sample none = 0
  clamp_sample (some v) = if ltb 100 v then 100 else v

  unfoldable pub samples : ℕ → ℕ → ℕ → List ℕ
  samples duration i zero = []
  samples duration i (suc n) = clamp_sample (floats.sample duration i) ∷ samples duration (i + 1) n

  unfoldable pub placeholder_waveform : ℕ → List ℕ
  unfolding samples
  placeholder_waveform duration = samples duration 0 64

  -- The seconds, before they are clamped; the difference is one of `uint64`.
  abbrev pub raw_duration : ℕ → Scan → ℕ
  raw_duration len st =
      if ltb 0 st.last_granule
      then floats.ceil_quotient ((st.last_granule + 2 ^ 64 - st.pre_skip) % 2 ^ 64) st.sample_rate
      else floats.estimate len

  abbrev pub finish : ℕ → Pages → Analysis
  finish len (scanned st) =
      let d = clamp_duration (raw_duration len st) in analyzed d (placeholder_waveform d)
  finish len panicked = slice_panic
  finish len out_of_fuel = no_result

  unfoldable pub analyze_ogg_opus : List ℕ → List ℕ → Analysis
  unfolding scan_pages text_eq clamp_duration placeholder_waveform
  analyze_ogg_opus spare data_ =
      if ltb (length data_) 4 || not (text_eq (take 4 data_) (codes "OggS"))
      then not_ogg
      else finish (length data_)
          (scan_pages (length data_) (data_ ++ spare) (length data_) first_scan)
