-- ===== src/Tests/Http.antt =====
-- Runs of the REST server.
use whatsmcp.Base.{
  ◌≡◌, refl, true, Option, none, some, List, [], ◌∷◌, Text, codes, text_eq, if◌then◌else◌,
}
use whatsmcp.Sql.{select}
use whatsmcp.Bridge.Std.{ascii_std}
use whatsmcp.Bridge.Select.{SelectOptionRequest, Replier, select_option}
use whatsmcp.Bridge.Select.Laws.{OneClick, menu_read, select_option-OneClick}
use whatsmcp.Bridge.Rest.{Server, RevokeRequest, handle_revoke}
use whatsmcp.Bridge.Rest.Laws.{Corrects, handle_revoke-Corrects}
use whatsmcp.Bridge.Rest.Serve.{Request, revoke_route, sync_labels_route, serve}
use whatsmcp.Bridge.Rest.Serve.Safe.{is_allowed, AllRefused, serve_allowed}
use whatsmcp.Tests.{db_one, failing, disk, no_wire}

abbrev some_replier : Replier
some_replier = record {
  connected = true;
  parse_jid = λ s. some (record { user = s; server = codes "s.whatsapp.net" });
  jid_string = λ j. j.user;
  send_reply = λ _ _. some (codes "R");
}

abbrev first_option : SelectOptionRequest
first_option = record {
  chat_jid = codes "c";
  message_id = codes "m";
  option = 1;
  option_id = [];
  title = [];
}

select_option-OneClick_example :
    OneClick some_replier ascii_std no_wire first_option
      (menu_read some_replier ascii_std no_wire first_option db_one)
      db_one
      (select_option some_replier ascii_std no_wire first_option db_one)
select_option-OneClick_example =
    select_option-OneClick some_replier ascii_std no_wire first_option db_one

abbrev pub some_server : Server
some_server = record {
  lib = ascii_std;
  wire = no_wire;
  sender = record failing { parse_jid = some_replier.parse_jid };
  replier = some_replier;
  files = disk;
  client = true;
  logged_in = true;
  pair_phone = λ _. none;
  fetch_app_state = true;
  send_correction = λ _ _. true;
  store_open = true;
}

abbrev edit : RevokeRequest
edit = record { message_id = codes "m"; chat_jid = codes "c"; new_text = codes "oi" }

handle_revoke-Corrects_example :
    Corrects edit db_one
      (handle_revoke some_server (record { post = true; body = some edit }) db_one)
handle_revoke-Corrects_example = handle_revoke-Corrects some_server refl true edit db_one refl

-- The host of `localhost:8080` and of no other.
abbrev some_split : Text → Option Text
some_split s = if text_eq s (codes "localhost:8080") then some (codes "localhost") else none

-- A page that rebinds its name, and a local script.
abbrev requests : List Request
requests =
    record {
      host = codes "evil.example";
      cross_origin = none;
      route = revoke_route (record { post = true; body = some edit });
    }
    ∷ record { host = codes "localhost:8080"; cross_origin = none; route = sync_labels_route }
    ∷ []

serve_allowed_example :
    (serve some_split some_server requests db_one
      ≡ serve some_split some_server (select (is_allowed some_split) requests) db_one)
    × AllRefused some_split some_server requests db_one
serve_allowed_example = serve_allowed some_split some_server requests db_one
