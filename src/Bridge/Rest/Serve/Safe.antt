-- ===== src/Bridge/Rest/Serve/Safe.antt =====
-- What any run of requests leaves in the store.
use whatsmcp.Base.{
  ◌≡◌, refl, sym, ◌∙◌, arith, ◌||◌, codes, text_eq, Bool, true, false, not, ◌&&◌, Option, none,
  some, List, [], ◌∷◌, Text, is_some, Bool-cases, Option-cases, inl, inr, pair_key, by_arms,
}
use whatsmcp.Sql.{Db, select}
use whatsmcp.Bridge.Store.{Tables}
use whatsmcp.Bridge.Store.Invariant.{WellFormed}
use whatsmcp.Bridge.Rest.{Response, http_error, Server, handle_sync_labels, handle_pair_phone}
use whatsmcp.Bridge.Rest.Invariant.{
  Served, handle_send-WellFormed, handle_select_option-WellFormed, handle_revoke-WellFormed,
  handle_download-WellFormed, handle_menu_options-WellFormed,
}
use whatsmcp.Bridge.Rest.Serve.{
  Request, Route, sync_labels_route, pair_phone_route, send_route, select_option_route,
  menu_options_route, revoke_route, download_route, dispatch, is_local_host, guard_local, serve,
  protect, forbidden_host, or_all,
}

abbrev pub loopback_names : List Text
loopback_names = codes "localhost" ∷ codes "127.0.0.1" ∷ codes "::1" ∷ []

abbrev pub is_listed : List Text → Text → Bool
is_listed [] name = false
is_listed (n ∷ ns) name = text_eq name n || is_listed ns name

module _ (split_host_port : Text → Option Text) where
  -- The request names the machine itself, and comes from no foreign page.
  abbrev pub is_allowed : Request → Bool
  is_allowed r =
      is_listed loopback_names (or_all split_host_port r.host (split_host_port r.host))
      && not (is_some r.cross_origin)

  is_local_host-is_listed :
      (host : Text)
      → is_local_host split_host_port host
        ≡ is_listed loopback_names (or_all split_host_port host (split_host_port host))
  unfolding is_local_host
  is_local_host-is_listed host = ground arith

  -- The answer is a refusal, and the store is as it was.
  abbrev pub Refusal : Db Tables → Db Tables × Response → Type 0
  Refusal db served = (why : Text) × (served ≡ (db, http_error 403 why))

  guard_local_refused :
      (server : Server) (r : Request) (db : Db Tables)
      → is_allowed r ≡ false
      → Refusal db (guard_local split_host_port server r db)
  unfolding guard_local
  guard_local_refused server r db refused =
      elim (Bool-cases (is_local_host split_host_port r.host)) [
        | inl is_local ↦ elim (Option-cases r.cross_origin) [
          | inl same ↦
              let listed : is_listed loopback_names
                    (or_all split_host_port r.host (split_host_port r.host))
                  ≡ true =
                sym (is_local_host-is_listed r.host) ∙ is_local in
              let clash : true ≡ false = rw (listed, same) at refused in cc
          | inr (refusal, foreign) ↦ rw (is_local, foreign) (refusal, refl)
        ]
        | inr foreign ↦ rw foreign (codes "Forbidden host", refl)
      ]

  abbrev pub RefusedUnless : Bool → Server → Request → Db Tables → Type 0
  RefusedUnless true server r db = Unit
  RefusedUnless false server r db = Refusal db (guard_local split_host_port server r db)

  -- Each request that is not allowed is refused, where it comes.
  abbrev pub AllRefused : Server → List Request → Db Tables → Type 0
  AllRefused server [] db = Unit
  AllRefused server (r ∷ rs) db =
      RefusedUnless (is_allowed r) server r db
      × AllRefused server rs ((guard_local split_host_port server r db).0)

  refused_unless :
      (b : Bool) (server : Server) (r : Request) (db : Db Tables)
      → is_allowed r ≡ b
      → RefusedUnless b server r db
  refused_unless true server r db e = tt
  refused_unless false server r db e = guard_local_refused server r db e

  all_refused : (server : Server) (rs : List Request) (db : Db Tables) → AllRefused server rs db
  all_refused server [] db = tt
  all_refused server (r ∷ rs) db = (
    refused_unless (is_allowed r) server r db refl,
    all_refused server rs ((guard_local split_host_port server r db).0),
  )

  serve-select :
      (server : Server) (rs : List Request) (db : Db Tables)
      → serve split_host_port server rs db ≡ serve split_host_port server (select is_allowed rs) db
  unfolding serve select
  serve-select server [] db = refl
  serve-select server (r ∷ rs) db = elim (Bool-cases (is_allowed r)) [
    | inl allowed ↦
        rw allowed (serve-select server rs ((guard_local split_host_port server r db).0))
    | inr refused ↦
        let (_, same) = guard_local_refused server r db refused in
        rw (refused, same) (serve-select server rs db)
  ]

  -- A request whose host is none of localhost, 127.0.0.1 and ::1, or that a foreign page makes, is
  -- answered by 403 where it comes, with no change of the store, and through any run of requests the
  -- store is as if only the others had come.
  pub serve_allowed :
      (server : Server) (rs : List Request) (db : Db Tables)
      → (serve split_host_port server rs db
          ≡ serve split_host_port server (select is_allowed rs) db)
        × AllRefused server rs db
  serve_allowed server rs db = (serve-select server rs db, all_refused server rs db)

module _ (server : Server) where
  dispatch-WellFormed :
      (r : Route) (db : Db Tables) → WellFormed db.tables → Served (dispatch server r db)
  unfolding dispatch handle_sync_labels handle_pair_phone
  dispatch-WellFormed sync_labels_route db h = h
  dispatch-WellFormed (pair_phone_route r) db h = h
  dispatch-WellFormed (send_route r) db h = handle_send-WellFormed server r db h
  dispatch-WellFormed (select_option_route r) db h = handle_select_option-WellFormed server r db h
  dispatch-WellFormed (menu_options_route id chat_jid) db h =
      handle_menu_options-WellFormed server id chat_jid db h
  dispatch-WellFormed (revoke_route r) db h = handle_revoke-WellFormed server r db h
  dispatch-WellFormed (download_route r) db h = handle_download-WellFormed server r db h

-- Through any requests, from wherever they come, the store stays well-formed, whichever of its
-- statements the engine refuses and whatever the client and the disk answer.
pub serve-WellFormed :
    (split_host_port : Text → Option Text) (server : Server) (rs : List Request) (db : Db Tables)
    → WellFormed db.tables
    → WellFormed ((serve split_host_port server rs db).tables)
unfolding serve guard_local
serve-WellFormed split_host_port server [] db h = h
serve-WellFormed split_host_port server (r ∷ rs) db h =
    serve-WellFormed split_host_port server rs ((guard_local split_host_port server r db).0) (
      by_arms Served (not (is_local_host split_host_port r.host)) (db, forbidden_host)
        (protect split_host_port r.cross_origin (dispatch server r.route db) db) (λ _. h)
        (λ _. protect-Served r.cross_origin))
  where
    protect-Served :
        (refusal : Option Text)
        → Served (protect split_host_port refusal (dispatch server r.route db) db)
    protect-Served none = dispatch-WellFormed server r.route db h
    protect-Served (some refusal) = h
