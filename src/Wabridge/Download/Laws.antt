-- ===== src/Wabridge/Download/Laws.antt =====
-- What a download leaves on the disk, and the one that comes behind it.
use mathlib.Core.Path.{subst}
use whatsmcp.Base.{
  ◌≡◌, refl, Bool, true, false, not, Option, none, some, List, [], ◌∷◌, ℕ, Result, ok, err, Text,
  by_arms,
}
use whatsmcp.Sql.{Db}
use whatsmcp.Domain.Media.{Media, is_downloadable}
use whatsmcp.Wabridge.Repos.{WaTables, RepoError, find_media}
use whatsmcp.Wabridge.Download.{
  Host, WaDownloadError, DownloadResult, saved, save_data, fetch_into, fetch_media, wa_local_path,
  wa_chat_dir, download_to, download_found, download, incomplete_metadata,
}

-- What is written is there.
abbrev pub WritesStay : {D : Type 0} → Host D → Type 0
WritesStay {D} host =
    (here : Text) (bytes : List ℕ) (disk : D)
    → (host.write_file here bytes disk).1 ≡ true
    → host.stat here ((host.write_file here bytes disk).0) ≡ true

module _ {D : Type 0} (host : Host D) (base_dir : Text) where
  -- The file that a result names is on the disk, under the name and of the kind of the medium.
  abbrev pub OnDisk : Text → Media → Result WaDownloadError DownloadResult → D → Type 0
  OnDisk chat_jid m (err e) disk = Unit
  OnDisk chat_jid m (ok r) disk =
      (host.stat (wa_local_path host base_dir chat_jid m.filename) disk ≡ true)
      × (host.abs (wa_local_path host base_dir chat_jid m.filename) ≡ some r.path)
      × (r.kind ≡ m.kind)
      × (r.filename ≡ m.filename)

  module _ (chat_jid : Text) (m : Media) where
    abbrev Good : D × Result WaDownloadError DownloadResult → Type 0
    Good a = OnDisk chat_jid m (a.1) (a.0)

    abbrev here : Text
    here = wa_local_path host base_dir chat_jid m.filename

    abbrev named : Text → DownloadResult
    named path = record { kind = m.kind; filename = m.filename; path = path }

    saved-Good :
        (path : Text) (done : D × Bool)
        → host.abs here ≡ some path
        → (done.1 ≡ true → host.stat here (done.0) ≡ true)
        → Good (saved host (named path) done)
    saved-Good path (disk, true) at there = (there refl, at, refl, refl)
    saved-Good path (disk, false) at there = tt

    save_data-Good :
        (path : Text) (bytes : Result WaDownloadError (List ℕ)) (disk : D)
        → WritesStay host
        → host.abs here ≡ some path
        → Good (save_data host (named path) here bytes disk)
    save_data-Good path (err e) disk stay at = tt
    save_data-Good path (ok bytes) disk stay at =
        saved-Good path (host.write_file here bytes disk) at (stay here bytes disk)

    fetch_into-Good :
        (path : Text) (made : D × Bool)
        → WritesStay host
        → host.abs here ≡ some path
        → Good (fetch_into host m (named path) here made)
    fetch_into-Good path (disk, true) stay at =
        save_data-Good path (fetch_media host m) disk stay at
    fetch_into-Good path (disk, false) stay at = tt

    download_to-Good :
        (path : Option Text) (disk : D)
        → WritesStay host
        → host.abs here ≡ path
        → Good (download_to host base_dir chat_jid m path disk)
    download_to-Good none disk stay at = tt
    download_to-Good (some path) disk stay at =
        by_arms Good (host.stat here disk) (disk, ok (named path)) _
          (λ there. (there, at, refl, refl))
          (λ _.
            by_arms Good (not (is_downloadable m)) (disk, err incomplete_metadata)
              (fetch_into host m (named path) here
                (host.mkdir_all (wa_chat_dir host base_dir chat_jid) disk))
              (λ _. tt) (λ _. fetch_into-Good path _ stay at))

  download-OnDisk :
      (id chat_jid : Text) (m : Media) (db : Db WaTables) (disk : D)
      → WritesStay host
      → (find_media id chat_jid db).1 ≡ ok m
      → OnDisk chat_jid m
          ((download host base_dir id chat_jid db disk).1.1)
          ((download host base_dir id chat_jid db disk).1.0)
  unfolding download
  download-OnDisk id chat_jid m db disk stay found =
      rw found (download_to-Good chat_jid m (host.abs (here chat_jid m)) disk stay refl)

  -- Where the file of a medium is on the disk, a download gives its path and leaves the disk alone.
  download_cached :
      (id chat_jid : Text) (m : Media) (path : Text) (db : Db WaTables) (disk : D)
      → (find_media id chat_jid db).1 ≡ ok m
      → host.stat (here chat_jid m) disk ≡ true
      → host.abs (here chat_jid m) ≡ some path
      → (download host base_dir id chat_jid db disk).1
        ≡ (disk, ok (record { kind = m.kind; filename = m.filename; path = path }))
  unfolding download
  download_cached id chat_jid m path db disk found there at = rw (found, at, there) refl

-- A file that is there stays, whichever directory is made and whichever file is written.
abbrev pub FilesStay : {D : Type 0} → Host D → Type 0
FilesStay {D} host =
    ((p dir : Text) (disk : D)
      → host.stat p disk ≡ true
      → host.stat p ((host.mkdir_all dir disk).0) ≡ true)
    × ((p here : Text) (bytes : List ℕ) (disk : D)
        → host.stat p disk ≡ true
        → host.stat p ((host.write_file here bytes disk).0) ≡ true)

module _ {D : Type 0} (host : Host D) (base_dir : Text) where
  -- What a download is asked for, and the store that it reads.
  abbrev pub Asked : Type 0
  Asked = Text × Text × Db WaTables

  -- The disk behind downloads.
  abbrev pub downloads : List Asked → D → D
  downloads [] disk = disk
  downloads ((id, chat_jid, db) ∷ rest) disk =
      downloads rest ((download host base_dir id chat_jid db disk).1.0)

  module _ (p : Text) (stay : FilesStay host) where
    abbrev Has : D × Result WaDownloadError DownloadResult → Type 0
    Has a = host.stat p (a.0) ≡ true

    save_data-Has :
        (r : DownloadResult) (target : Text) (bytes : Result WaDownloadError (List ℕ)) (disk : D)
        → host.stat p disk ≡ true
        → Has (save_data host r target bytes disk)
    save_data-Has r target (err e) disk h = h
    save_data-Has r target (ok bytes) disk h = stay.1 p target bytes disk h

    fetch_into-Has :
        (m : Media) (r : DownloadResult) (target : Text) (made : D × Bool)
        → host.stat p (made.0) ≡ true
        → Has (fetch_into host m r target made)
    fetch_into-Has m r target (disk, true) h = save_data-Has r target (fetch_media host m) disk h
    fetch_into-Has m r target (disk, false) h = h

    download_to-Has :
        (chat_jid : Text) (m : Media) (path : Option Text) (disk : D)
        → host.stat p disk ≡ true
        → Has (download_to host base_dir chat_jid m path disk)
    download_to-Has chat_jid m none disk h = h
    download_to-Has chat_jid m (some path) disk h =
        let here : Text = wa_local_path host base_dir chat_jid m.filename in
        let r : DownloadResult = record { kind = m.kind; filename = m.filename; path = path } in
        let made : D × Bool = host.mkdir_all (wa_chat_dir host base_dir chat_jid) disk in
        by_arms Has (host.stat here disk) (disk, ok r) _ (λ _. h)
          (λ _.
            by_arms Has (not (is_downloadable m)) (disk, err incomplete_metadata)
              (fetch_into host m r here made) (λ _. h)
              (λ _.
                fetch_into-Has m r here made
                  (stay.0 p (wa_chat_dir host base_dir chat_jid) disk h)))

    download_found-Has :
        (chat_jid : Text) (found : Result RepoError Media) (disk : D)
        → host.stat p disk ≡ true
        → Has (download_found host base_dir chat_jid found disk)
    download_found-Has chat_jid (err e) disk h = h
    download_found-Has chat_jid (ok m) disk h = download_to-Has chat_jid m _ disk h

    downloads-Has :
        (rest : List Asked) (disk : D)
        → host.stat p disk ≡ true
        → host.stat p (downloads rest disk) ≡ true
    unfolding download
    downloads-Has [] disk h = h
    downloads-Has ((id, chat_jid, db) ∷ rest) disk h =
        downloads-Has rest ((download host base_dir id chat_jid db disk).1.0)
          (download_found-Has chat_jid ((find_media id chat_jid db).1) disk h)

  -- Once a download has succeeded, every later download in the same chat of a medium with the same
  -- file name gives the same path and leaves the disk as it is, also where its medium could not be
  -- fetched: so does the same message, and so does another one, whichever downloads come in between. What is written is taken to be there, and
  -- a file that is there to stay.
  pub download_shared :
      (chat_jid id other : Text) (m n : Media) (db later : Db WaTables) (disk : D)
      (r : DownloadResult) (between : List Asked)
      → WritesStay host
      → FilesStay host
      → (find_media id chat_jid db).1 ≡ ok m
      → (find_media other chat_jid later).1 ≡ ok n
      → n.filename ≡ m.filename
      → (download host base_dir id chat_jid db disk).1.1 ≡ ok r
      → let after = downloads between ((download host base_dir id chat_jid db disk).1.0) in
        (download host base_dir other chat_jid later after).1
        ≡ (after, ok (record { kind = n.kind; filename = n.filename; path = r.path }))
  download_shared chat_jid id other m n db later disk r between written stay found found_other
        same_name done =
      let first : D = (download host base_dir id chat_jid db disk).1.0 in
      let good : OnDisk host base_dir chat_jid m (ok r) first =
        subst (λ a. OnDisk host base_dir chat_jid m a first) done
          (download-OnDisk host base_dir id chat_jid m db disk written found) in
      let there : host.stat (wa_local_path host base_dir chat_jid m.filename)
            (downloads between first)
          ≡ true =
        downloads-Has (wa_local_path host base_dir chat_jid m.filename) stay between first
          (good.0) in
      download_cached host base_dir other chat_jid n r.path later (downloads between first)
        found_other (rw same_name there) (rw same_name (good.1))
