-- ===== src/Tests/Commands.antt =====
-- Runs of the group commands, and of muting, starring and naming.
use whatsmcp.Base.{◌≡◌, refl, true, none, some, [], ◌∷◌, codes}
use whatsmcp.Bridge.Std.{ascii_std}
use whatsmcp.Bridge.Groups.{GroupClient, create_request, nothing, handle_group}
use whatsmcp.Bridge.Groups.Laws.{Guarded, handle_group-Guarded}
use whatsmcp.Bridge.AppState.{StateClient}
use whatsmcp.Bridge.AppState.Mute.{MuteRequest, default_hours, handle_mute}
use whatsmcp.Bridge.AppState.Mute.Laws.{OnePatch, handle_mute-OnePatch}
use whatsmcp.Bridge.AppState.Star.{StarRequest, handle_star}
use whatsmcp.Bridge.AppState.Star.Laws.{StarsOrNothing, handle_star-StarsOrNothing}
use whatsmcp.Bridge.AppState.Contact.{first_name}
use whatsmcp.Tests.{failing}
use whatsmcp.Tests.Reads.{some_jids}

abbrev group_client : GroupClient
group_client = record { ready = true; jids = some_jids; answer = λ _. some nothing }

handle_group-Guarded_example : Guarded true (
    handle_group group_client ascii_std true
      (some (create_request (codes " Gastos ") (codes "5511999990003" ∷ []))))
handle_group-Guarded_example =
    handle_group-Guarded group_client ascii_std true
      (some (create_request (codes " Gastos ") (codes "5511999990003" ∷ [])))

abbrev state_client : StateClient
state_client = record {
  ready = true;
  jids = record failing {
    parse_jid = λ s. some (record { user = s; server = codes "s.whatsapp.net" });
    twin = λ j. some (record { user = j.user; server = codes "lid" });
  };
  send_app_state = λ _. true;
}

-- A chat, twice.
abbrev mute_request : MuteRequest
mute_request = record {
  chat_jid = codes "5511";
  chat_jids = codes "5511" ∷ [];
  hours = default_hours;
  mute = none;
}

handle_mute-OnePatch_example :
    OnePatch state_client mute_request (handle_mute state_client true (some mute_request))
handle_mute-OnePatch_example = handle_mute-OnePatch state_client true mute_request

abbrev star_request : StarRequest
star_request = record {
  single = record { chat_jid = codes "c"; message_id = codes "m"; from_me = true; sender = [] };
  starred = none;
  messages = [];
}

handle_star-StarsOrNothing_example :
    StarsOrNothing state_client star_request (handle_star state_client true (some star_request))
handle_star-StarsOrNothing_example = handle_star-StarsOrNothing state_client true star_request

first_name_test : first_name (codes "Ana Maria") ≡ codes "Ana"
unfolding first_name
first_name_test = refl
