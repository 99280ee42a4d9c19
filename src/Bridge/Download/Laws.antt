-- ===== src/Bridge/Download/Laws.antt =====
-- What a download gives.
use whatsmcp.Base.{
  contains, has_prefix, ◌≡◌, refl, ◌∙◌, arith, Option-cases, inl, inr, if◌then◌else◌, true, false,
  not, Option, none, some, Text, is_empty, by_arms,
}
use whatsmcp.Sql.{Db, query}
use whatsmcp.Bridge.Media.{MediaInfo, short_id}
use whatsmcp.Bridge.Store.{Tables, get_direct_path, get_media_info}
use whatsmcp.Bridge.Download.{
  Files, Download, cached, fetched, not_downloaded, not_media, no_directory, is_incomplete,
  is_supported, chat_dir, local_path, read_info, fetch, fetch_at, download_info, download_media,
}

-- The path is in the folder of the chat, and holds the short ID of the message.
abbrev pub IsBound : Text → Text → Text → Type 0
IsBound id chat_jid path =
    (has_prefix path (chat_dir chat_jid) ≡ true) × (contains path (short_id id) ≡ true)

-- A cached file stands at the path, and a fetched one was written to it, of a supported type and a
-- message whose media information is complete.
abbrev pub IsGood : Files → Text → Text → MediaInfo → Download → Type 0
IsGood files id chat_jid info (not_downloaded e) = Unit
IsGood files id chat_jid info (cached kind name path) =
    (files.exists (local_path chat_jid name id) ≡ true)
    × (kind ≡ info.media_type)
    × (name ≡ info.filename)
    × (files.abs (local_path chat_jid name id) ≡ some path)
    × IsBound id chat_jid (local_path chat_jid name id)
IsGood files id chat_jid info (fetched kind name path here bytes) =
    (is_supported kind ≡ true)
    × (is_incomplete info ≡ false)
    × (kind ≡ info.media_type)
    × (name ≡ info.filename)
    × (here ≡ local_path chat_jid name id)
    × (files.write_file here bytes ≡ true)
    × (files.abs here ≡ some path)
    × IsBound id chat_jid here

-- The information of the message, where a query finds it, with a good result.
abbrev pub IsGoodFor : Files → Text → Text → Option MediaInfo → Db Tables × Download → Type 0
IsGoodFor files id chat_jid none r = (i : MediaInfo) → IsGood files id chat_jid i (r.1)
IsGoodFor files id chat_jid (some i) r = IsGood files id chat_jid i (r.1)

module _ (files : Files) (id chat_jid : Text) (info : MediaInfo) where
  abbrev here : Text
  here = local_path chat_jid info.filename id

  abbrev Good : Db Tables × Download → Type 0
  Good r = IsGood files id chat_jid info (r.1)

-- A download writes nothing to the store.
abbrev SameTables : Db Tables → Db Tables × Download → Type 0
SameTables db r = r.0.tables ≡ db.tables

module _ (files : Files) (id chat_jid : Text) where
  fetch-tables :
      (info : MediaInfo) (path here : Text) (db : Db Tables)
      → SameTables db (fetch files id chat_jid info path here db)
  unfolding fetch get_direct_path query
  fetch-tables info path here db = ground arith

  fetch_at-tables :
      (info : MediaInfo) (file : Text) (path : Option Text) (db : Db Tables)
      → SameTables db (fetch_at files id chat_jid info file path db)
  fetch_at-tables info file none db = refl
  fetch_at-tables info file (some path) db = fetch-tables info path file db

  download_info-tables :
      (info : Option MediaInfo) (db : Db Tables)
      → SameTables db (download_info files id chat_jid info db)
  download_info-tables none db = refl
  download_info-tables (some info) db =
      let file : Text = local_path chat_jid info.filename id in
      let rest : Db Tables × Download = fetch_at files id chat_jid info file (files.abs file) db in
      by_arms (SameTables db) (is_empty info.media_type) (db, not_downloaded not_media)
        (if not (files.mkdir_all (chat_dir chat_jid))
          then (db, not_downloaded no_directory)
          else rest)
        (λ _. refl)
        (λ _.
          by_arms (SameTables db) (not (files.mkdir_all (chat_dir chat_jid)))
            (db, not_downloaded no_directory) rest (λ _. refl)
            (λ _. fetch_at-tables info file (files.abs file) db))

  read_info-tables : (db : Db Tables) → (read_info id chat_jid db).0.tables ≡ db.tables
  unfolding read_info get_media_info query
  read_info-tables db = elim (Option-cases ((get_media_info id chat_jid db).1)) [
    | inl e ↦ rw (e, read_info) refl
    | inr (i, e) ↦ rw (e, read_info) refl
  ]

  pub download_media-tables : (db : Db Tables) → SameTables db (download_media files id chat_jid db)
  unfolding download_media
  download_media-tables db =
      download_info-tables ((read_info id chat_jid db).1) ((read_info id chat_jid db).0)
      ∙ read_info-tables db
