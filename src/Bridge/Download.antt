-- ===== src/Bridge/Download.antt =====
-- `downloadMedia` and `extractDirectPathFromURL` of whatsapp-bridge/main.go.
pub mod Laws
use whatsmcp.Base.{
  ℕ, ◌+◌, Bool, true, false, not, ◌||◌, ◌==◌, Option, none, some, List, [], ◌∷◌, ◌++◌, Text, codes,
  is_empty, text_eq, cut, drop, replace_rune, if◌then◌else◌,
}
use whatsmcp.Sql.{Db}
use whatsmcp.Bridge.Vcard.{index}
use whatsmcp.Bridge.Media.{MediaInfo, no_media, unique_name}
use whatsmcp.Bridge.Store.{Tables, get_media_info, get_direct_path}

abbrev from_path : Text → Option ℕ → Text
from_path url none = url
from_path url (some i) = codes "/" ++ (cut b'?' (drop (i + 5) url)).0

-- What stands behind the first `.net/`, up to a `?`.
unfoldable pub extract_direct_path_from_url : Text → Text
unfolding index cut
extract_direct_path_from_url url = from_path url (index (codes ".net/") url)

-- The `MediaDownloader` that is handed to the client.
pub record Downloader : Type 0 where
  pub info : MediaInfo
  pub direct_path : Text

-- The file system and the client; `none` and false are errors.
pub record Files : Type 0 where
  pub mkdir_all : Text → Bool
  pub abs : Text → Option Text
  pub exists : Text → Bool
  pub download : Downloader → Option (List ℕ)
  pub write_file : Text → List ℕ → Bool

pub data DownloadError : Type 0 where
  message_not_found : DownloadError
  not_media : DownloadError
  no_directory : DownloadError
  no_absolute_path : DownloadError
  incomplete_info : DownloadError
  unsupported_type : Text → DownloadError
  failed_download : DownloadError
  failed_write : DownloadError

-- The file was there, or it was fetched and written to the path.
pub data Download : Type 0 where
  cached : (media_type filename path : Text) → Download
  fetched : (media_type filename path : Text) → (local_path : Text) → List ℕ → Download
  not_downloaded : DownloadError → Download

unfoldable pub is_incomplete : MediaInfo → Bool
is_incomplete i =
    is_empty i.url
    || is_empty i.media_key
    || is_empty i.file_sha256
    || is_empty i.file_enc_sha256
    || i.file_length == 0

-- The types that the `switch` knows.
unfoldable pub is_supported : Text → Bool
unfolding text_eq
is_supported t =
    text_eq t (codes "image")
    || text_eq t (codes "video")
    || text_eq t (codes "audio")
    || text_eq t (codes "document")

-- Every `:` of the chat's JID becomes `_`.
unfoldable pub chat_dir : Text → Text
unfolding replace_rune
chat_dir chat_jid = codes "store/" ++ replace_rune b':' b'_' chat_jid

unfoldable pub local_path : Text → Text → Text → Text
unfolding chat_dir unique_name
local_path chat_jid filename message_id =
    chat_dir chat_jid ++ (codes "/" ++ unique_name filename message_id)

-- The second query reads two columns only.
abbrev basic_info : Option MediaInfo → Option MediaInfo
basic_info none = none
basic_info (some i) = some (record no_media { media_type = i.media_type; filename = i.filename })

unfoldable pub read_info : Text → Text → Db Tables → Db Tables × Option MediaInfo
unfolding get_media_info
read_info id chat_jid db =
    let (asked, info) = get_media_info id chat_jid db in
    let (again, basic) = get_media_info id chat_jid asked in
    elim info [ some i ↦ (asked, some i) | none ↦ (again, basic_info basic) ]

module _ (files : Files) where
  abbrev pub save : MediaInfo → (path here : Text) → Option (List ℕ) → Download
  save info path here none = not_downloaded failed_download
  save info path here (some bytes) =
      if files.write_file here bytes
      then fetched info.media_type info.filename path here bytes
      else not_downloaded failed_write

  abbrev pub stored_path : Text → MediaInfo → Text
  stored_path stored info =
      if is_empty stored then extract_direct_path_from_url info.url else stored

  -- With the absolute path known: the file that is there, or a download.
  unfoldable pub fetch :
      Text → Text → MediaInfo → (path here : Text) → Db Tables → Db Tables × Download
  unfolding is_incomplete is_supported get_direct_path
  fetch id chat_jid info path here db =
      if files.exists here
      then (db, cached info.media_type info.filename path)
      else if is_incomplete info
      then (db, not_downloaded incomplete_info)
      else let (asked, stored) = get_direct_path id chat_jid db in
        if not (is_supported info.media_type)
        then (asked, not_downloaded (unsupported_type info.media_type))
        else (
          asked,
          save info path here
              (files.download (record { info = info; direct_path = stored_path stored info })),
        )

  abbrev pub fetch_at :
      Text → Text → MediaInfo → Text → Option Text → Db Tables → Db Tables × Download
  fetch_at id chat_jid info here none db = (db, not_downloaded no_absolute_path)
  fetch_at id chat_jid info here (some path) db = fetch id chat_jid info path here db

  abbrev pub download_info : Text → Text → Option MediaInfo → Db Tables → Db Tables × Download
  download_info id chat_jid none db = (db, not_downloaded message_not_found)
  download_info id chat_jid (some info) db =
      if is_empty info.media_type
      then (db, not_downloaded not_media)
      else if not (files.mkdir_all (chat_dir chat_jid))
      then (db, not_downloaded no_directory)
      else (let here = local_path chat_jid info.filename id in
          fetch_at id chat_jid info here (files.abs here) db)

  unfoldable pub download_media : Text → Text → Db Tables → Db Tables × Download
  unfolding read_info fetch local_path extract_direct_path_from_url
  download_media id chat_jid db =
      let (asked, info) = read_info id chat_jid db in download_info id chat_jid info asked
