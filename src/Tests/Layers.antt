-- ===== src/Tests/Layers.antt =====
-- Runs of the bus and the repositories of wabridge.
use whatsmcp.Base.{
  none, ◌++◌, trim_space, last_index, ℕ, suc, ◌≡◌, refl, true, false, some, List, [], ◌∷◌, Text,
  codes, ok, text_eq, if◌then◌else◌,
}
use whatsmcp.Sql.{Db, first}
use whatsmcp.Bridge.Proto.{inner, plain, empty_body}
use whatsmcp.Wabridge.Translate.{WaClient, Received, extract_media}
use whatsmcp.Wabridge.Translate.Laws.{arrive, arrive-find_media}
use whatsmcp.Domain.Jid.{new_jid, Jid, to_string}
use whatsmcp.Domain.Media.{Media}
use whatsmcp.Domain.Message.{Message}
use whatsmcp.Domain.Identity.{display}
use whatsmcp.Wabridge.Bus.{Handler, Bus, subscribe, add_handler, publish}
use whatsmcp.Wabridge.Bus.Laws.{publish-subscribe}
use whatsmcp.Wabridge.Repos.{WaTables, message_args, find_media, save_batch}
use whatsmcp.Wabridge.Repos.Found.{stored_media}
use whatsmcp.Wabridge.Repos.Batch.{SavedIf, all_known, healthy, save_batch_lem}

-- Events are their names, and the state counts; every handler fails.
abbrev the_name : Text → Text
the_name e = e

abbrev count : Handler Text ℕ the_name
count e n = (suc n, false)

abbrev counting : Bus Text ℕ the_name
counting = add_handler Text ℕ the_name (codes "a") count []

publish-subscribe_example :
    (publish Text ℕ the_name
      (add_handler Text ℕ the_name (codes "a") count counting)
      (codes "a")
      0).0
    ≡ (if text_eq (codes "a") (codes "a")
        then (count (codes "a") ((publish Text ℕ the_name counting (codes "a") 0).0)).0
        else (publish Text ℕ the_name counting (codes "a") 0).0)
unfolding subscribe
publish-subscribe_example =
    publish-subscribe the_name (codes "a") count counting
      (add_handler Text ℕ the_name (codes "a") count counting) (codes "a") 0 refl

abbrev pub empty_db : Db WaTables
empty_db = record {
  tables = record { chats = []; messages = []; labels = []; label_chats = [] };
  faults = [];
}

abbrev wa_photo : Media
wa_photo = record {
  kind = codes "image";
  filename = codes "image_1.jpg";
  mimetype = [];
  url = codes "u";
  direct_path = codes "/v";
  media_key = 1 ∷ [];
  file_sha256 = 2 ∷ [];
  file_enc_sha256 = 3 ∷ [];
  file_length = 4;
}

abbrev wa_jid : Jid
wa_jid = record { user = codes "5511"; server = codes "s.whatsapp.net" }

abbrev wa_message : Message
wa_message = record {
  id = codes "m";
  chat = wa_jid;
  sender = wa_jid;
  content = [];
  timestamp = 7;
  is_from_me = false;
  media = some wa_photo;
}

-- A photo that the client receives.
abbrev pub wa_client : WaClient
wa_client = record {
  account_user = codes "me";
  group_name = λ _. none;
  full_name = λ _. some (codes "Ana");
  parse_jid = λ _. none;
  jid_string = λ j. j.user ++ (codes "@" ++ j.server);
  to_non_ad = λ j. j;
  now = codes "1";
}

abbrev pub wa_received : Received
wa_received = record {
  id = codes "m";
  chat = record { user = codes "5511"; server = codes "s.whatsapp.net" };
  sender = record { user = codes "5511"; server = codes "s.whatsapp.net" };
  timestamp = 7;
  is_from_me = false;
  message = inner (
      plain (record empty_body {
        image = some (record {
          caption = [];
          url = codes "u";
          direct_path = codes "/v";
          media_key = 1 ∷ [];
          file_sha256 = 2 ∷ [];
          file_enc_sha256 = 3 ∷ [];
          file_length = 4;
        });
      }));
}

arrive-find_media_example :
    (find_media (codes "m") (to_string wa_jid) (arrive wa_client wa_received empty_db)).1
    ≡ ok (stored_media wa_photo)
unfolding new_jid trim_space last_index extract_media
arrive-find_media_example =
    arrive-find_media wa_client wa_received wa_photo wa_jid empty_db refl refl refl

display_test :
    display (record { jid = wa_jid; name = codes "Ana"; phone = codes "5511" }) ≡ codes "Ana (5511)"
unfolding display
display_test = refl

-- A batch in which a message comes twice, in a chat that has its row.
abbrev known_chat : WaTables
known_chat = record empty_db.tables {
  chats = record { jid = to_string wa_jid; name = codes "Ana"; last_message_time = 7 } ∷ [];
}

abbrev sent_again : List Message
sent_again = wa_message ∷ record wa_message { content = codes "oi" } ∷ []

save_batch_lem_example :
    ((save_batch sent_again (healthy known_chat)).1 ≡ all_known known_chat.chats sent_again)
    × SavedIf
        (all_known known_chat.chats sent_again)
        sent_again
        known_chat
        ((save_batch sent_again (healthy known_chat)).0.tables)
save_batch_lem_example = save_batch_lem sent_again known_chat

is_known_test : all_known known_chat.chats sent_again ≡ true
unfolding to_string text_eq first message_args
is_known_test = refl
