-- ===== src/Bridge/Media.antt =====
-- Media in whatsapp-bridge/main.go: the name a file is stored under, what is kept to fetch it later,
-- and its direct path.
pub mod Names
pub mod Info
use whatsmcp.Base.{
  ℕ, ◌-◌, Bool, not, ◌&&◌, ◌||◌, Option, none, some, List, [], ◌∷◌, ◌++◌, Text, codes, is_empty,
  length, take, drop, leb, ltb, ◌==◌, if◌then◌else◌, contains, contains_rune, text_eq,
}
use whatsmcp.Bridge.Std.{Std}
use whatsmcp.Bridge.Proto.{MediaPart, DocumentPart, Body, body, Inner, nil, inner}
use whatsmcp.Bridge.Unwrap.{unwrap_message}

-- The letters and digits that `shortID` keeps.
unfoldable pub is_id_rune : ℕ → Bool
is_id_rune r =
    (leb b'A' r && leb r b'Z') || (leb b'a' r && leb r b'z') || (leb b'0' r && leb r b'9')

unfoldable pub keep_id_runes : Text → Text
unfolding is_id_rune
keep_id_runes [] = []
keep_id_runes (r ∷ s) = let rest = keep_id_runes s in if is_id_rune r then r ∷ rest else rest

-- At most the last eight, `0` where there is none.
unfoldable pub short_id : Text → Text
unfolding keep_id_runes
short_id id =
    let kept = keep_id_runes id in
    if ltb 8 (length kept)
    then drop (length kept - 8) kept
    else if is_empty kept
    then codes "0"
    else kept

-- `filepath.Ext`: from the last dot of the last path element on.
unfoldable pub ext : Text → Text
unfolding contains_rune
ext [] = []
ext (c ∷ s) =
    let later = ext s in
    if not (is_empty later)
    then later
    else if c == b'.' && not (contains_rune b'/' s)
    then c ∷ s
    else []

-- `strings.TrimSuffix`.
unfoldable pub trim_suffix : Text → Text → Text
unfolding text_eq
trim_suffix s p = let n = length s - length p in if text_eq (drop n s) p then take n s else s

unfoldable pub unique_name : Text → Text → Text
unfolding short_id ext trim_suffix contains
unique_name filename message_id =
    let short = short_id message_id in
    if is_empty short || contains filename short
    then filename
    else trim_suffix filename (ext filename) ++ (codes "_" ++ (short ++ ext filename))

-- The results of `extractMediaInfo`, in its order.
pub record MediaInfo : Type 0 where
  pub media_type : Text
  pub filename : Text
  pub url : Text
  pub media_key : List ℕ
  pub file_sha256 : List ℕ
  pub file_enc_sha256 : List ℕ
  pub file_length : ℕ

abbrev pub no_media : MediaInfo
no_media = record {
  media_type = [];
  filename = [];
  url = [];
  media_key = [];
  file_sha256 = [];
  file_enc_sha256 = [];
  file_length = 0;
}

abbrev pub info_of : Text → Text → MediaPart → MediaInfo
info_of kind name m = record {
  media_type = kind;
  filename = name;
  url = m.url;
  media_key = m.media_key;
  file_sha256 = m.file_sha256;
  file_enc_sha256 = m.file_enc_sha256;
  file_length = m.file_length;
}

-- One arm of the chain of `if x := …; x != nil { return … }`.
abbrev pub or_else {ℓ} : {A B : Type ℓ} → Option A → (A → B) → B → B
or_else none f rest = rest
or_else (some a) f rest = f a

module _ (lib : Std) where
  unfoldable pub base_name : ℕ → Text → Text
  unfolding short_id
  base_name stamp id = lib.format_stamp stamp ++ (codes "_" ++ short_id id)

  unfoldable pub body_media : Text → Body → MediaInfo
  body_media base b =
      or_else b.image (λ m. info_of (codes "image") (codes "image_" ++ (base ++ codes ".jpg")) m)
        (or_else b.video (λ m. info_of (codes "video") (codes "video_" ++ (base ++ codes ".mp4")) m)
          (or_else b.audio
            (λ m. info_of (codes "audio") (codes "audio_" ++ (base ++ codes ".ogg")) m)
            (or_else b.document
              (λ d.
                info_of (codes "document")
                  (if is_empty d.file_name then codes "document_" ++ base else d.file_name) d.media)
              (or_else b.sticker
                (λ m. info_of (codes "sticker") (codes "sticker_" ++ (base ++ codes ".webp")) m)
                (or_else b.ptv
                  (λ m. info_of (codes "video") (codes "ptv_" ++ (base ++ codes ".mp4")) m)
                  no_media)))))

  unfoldable pub media_of : Text → Inner → MediaInfo
  unfolding body_media
  media_of base nil = no_media
  media_of base (inner m) = body_media base (body m)

  unfoldable pub extract_media_info : Inner → ℕ → Text → MediaInfo
  unfolding media_of base_name
  extract_media_info msg stamp id = media_of (base_name stamp id) (unwrap_message msg)

abbrev pub path_of : MediaPart → Text
path_of m = m.direct_path

unfoldable pub body_path : Body → Text
body_path b = or_else b.audio path_of (
    or_else b.image path_of (
      or_else b.video path_of (
        or_else b.document (λ d. d.media.direct_path)
          (or_else b.sticker path_of (or_else b.ptv path_of [])))))

unfoldable pub direct_path_of : Inner → Text
unfolding body_path
direct_path_of nil = []
direct_path_of (inner m) = body_path (body m)

unfoldable pub extract_direct_path : Inner → Text
unfolding direct_path_of
extract_direct_path msg = direct_path_of (unwrap_message msg)
