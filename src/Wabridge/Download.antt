-- ===== src/Wabridge/Download.antt =====
-- The download of wabridge: the use case of features/messaging/download.go with its cache on the disk,
-- and `Fetch` of platform/wa/download.go behind it.
pub mod Laws
pub mod Path
use whatsmcp.Base.{
  ℕ, ◌+◌, Bool, not, Option, none, some, List, [], ◌∷◌, ◌++◌, Result, ok, err, Text, codes,
  is_empty, text_eq, take, drop, length, replace_rune, if◌then◌else◌,
}
use whatsmcp.Sql.{Db}
use whatsmcp.Domain.Media.{Media, is_downloadable}
use whatsmcp.Bridge.Send.{MediaType, media_image, media_video, media_audio, media_document}
use whatsmcp.Bridge.Vcard.{index}
use whatsmcp.Wabridge.Repos.{WaTables, RepoError, find_media}

-- `downloadable`, which is handed to the client.
pub record Downloadable : Type 0 where
  pub url : Text
  pub direct_path : Text
  pub media_key : List ℕ
  pub sha256 : List ℕ
  pub enc_sha : List ℕ
  pub length : ℕ
  pub media_type : MediaType

-- The file system in its state, and the client's download; `none` and false are errors.
pub record Host (D : Type 0) : Type 0 where
  pub join : Text → Text → Text
  pub abs : Text → Option Text
  pub stat : Text → D → Bool
  pub mkdir_all : Text → D → D × Bool
  pub write_file : Text → List ℕ → D → D × Bool
  pub download : Downloadable → Option (List ℕ)

pub data WaDownloadError : Type 0 where
  not_found : RepoError → WaDownloadError
  no_absolute_path : WaDownloadError
  incomplete_metadata : WaDownloadError
  no_chat_folder : WaDownloadError
  unsupported_kind : Text → WaDownloadError
  not_fetched : WaDownloadError
  not_saved : WaDownloadError

pub record DownloadResult : Type 0 where
  pub kind : Text
  pub filename : Text
  pub path : Text

unfoldable pub media_kind_to_wa : Text → Option MediaType
unfolding text_eq
media_kind_to_wa kind =
    if text_eq kind (codes "image")
    then some media_image
    else if text_eq kind (codes "video")
    then some media_video
    else if text_eq kind (codes "audio")
    then some media_audio
    else if text_eq kind (codes "document")
    then some media_document
    else none

abbrev pub parts_at : Text → Text → Option ℕ → List Text
parts_at sep s none = s ∷ []
parts_at sep s (some i) = take i s ∷ drop (i + length sep) s ∷ []

-- `strings.SplitN(s, sep, 2)`.
unfoldable pub split_in_two : Text → Text → List Text
unfolding index
split_in_two sep s = parts_at sep s (index sep s)

abbrev pub first_part : List Text → Text
first_part [] = []
first_part (p ∷ ps) = p

abbrev pub path_behind : Text → List Text → Text
path_behind url (_ ∷ p ∷ _) = codes "/" ++ first_part (split_in_two (codes "?") p)
path_behind url _ = url

-- `extractDirectPathFromURL`.
unfoldable pub direct_path_of : Text → Text
unfolding split_in_two
direct_path_of url = path_behind url (split_in_two (codes ".net/") url)

-- `NewDownloader`.
unfoldable pub base_or_store : Text → Text
base_or_store base = if is_empty base then codes "store" else base

module _ {D : Type 0} (host : Host D) where
  abbrev fetched : Option (List ℕ) → Result WaDownloadError (List ℕ)
  fetched none = err not_fetched
  fetched (some bytes) = ok bytes

  abbrev fetch_kind : Media → Option MediaType → Result WaDownloadError (List ℕ)
  fetch_kind m none = err (unsupported_kind m.kind)
  fetch_kind m (some kind) = fetched (
      host.download (record {
        url = m.url;
        direct_path = if is_empty m.direct_path then direct_path_of m.url else m.direct_path;
        media_key = m.media_key;
        sha256 = m.file_sha256;
        enc_sha = m.file_enc_sha256;
        length = m.file_length;
        media_type = kind;
      }))

  -- `Fetch`.
  unfoldable pub fetch_media : Media → Result WaDownloadError (List ℕ)
  unfolding media_kind_to_wa direct_path_of
  fetch_media m = fetch_kind m (media_kind_to_wa m.kind)

  abbrev pub saved : DownloadResult → D × Bool → D × Result WaDownloadError DownloadResult
  saved r (disk, done) = (disk, if done then ok r else err not_saved)

  abbrev pub save_data :
      DownloadResult
      → Text
      → Result WaDownloadError (List ℕ)
      → D
      → D × Result WaDownloadError DownloadResult
  save_data r here (err e) disk = (disk, err e)
  save_data r here (ok bytes) disk = saved r (host.write_file here bytes disk)

  -- Behind `MkdirAll`.
  abbrev pub fetch_into :
      Media → DownloadResult → Text → D × Bool → D × Result WaDownloadError DownloadResult
  fetch_into m r here (disk, made) =
      if not made then (disk, err no_chat_folder) else save_data r here (fetch_media m) disk

  module _ (base_dir : Text) where
    unfoldable pub wa_chat_dir : Text → Text
    unfolding replace_rune
    wa_chat_dir chat_jid = host.join base_dir (replace_rune b':' b'_' chat_jid)

    unfoldable pub wa_local_path : Text → Text → Text
    unfolding wa_chat_dir
    wa_local_path chat_jid filename = host.join (wa_chat_dir chat_jid) filename

    abbrev pub download_to :
        Text → Media → Option Text → D → D × Result WaDownloadError DownloadResult
    download_to chat_jid m none disk = (disk, err no_absolute_path)
    download_to chat_jid m (some path) disk =
        let here = wa_local_path chat_jid m.filename in
        let r : DownloadResult = record { kind = m.kind; filename = m.filename; path = path } in
        if host.stat here disk
        then (disk, ok r)
        else if not (is_downloadable m)
        then (disk, err incomplete_metadata)
        else fetch_into m r here (host.mkdir_all (wa_chat_dir chat_jid) disk)

    abbrev pub download_found :
        Text → Result RepoError Media → D → D × Result WaDownloadError DownloadResult
    download_found chat_jid (err e) disk = (disk, err (not_found e))
    download_found chat_jid (ok m) disk =
        download_to chat_jid m (host.abs (wa_local_path chat_jid m.filename)) disk

    unfoldable pub download :
        Text → Text → Db WaTables → D → Db WaTables × (D × Result WaDownloadError DownloadResult)
    unfolding find_media wa_chat_dir wa_local_path is_downloadable fetch_media
    download message_id chat_jid db disk =
        let (asked, media) = find_media message_id chat_jid db in
        (asked, download_found chat_jid media disk)
