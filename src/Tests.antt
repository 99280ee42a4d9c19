-- ===== src/Tests.antt =====
-- Runs of the definitions on concrete inputs.
mod Reads
mod Links
mod Http
mod Commands
mod Layers
mod Wires
mod Runs
mod Pairings
use whatsmcp.Base.{
  ◌+◌, ◌-◌, ◌/◌, ◌==◌, ◌++◌, has_prefix, ℕ, ◌≡◌, refl, ◌⊎◌, true, false, none, some, [], ◌∷◌, Text,
  codes, cut, ok, text_eq, is_empty, is_some, length, All, Lacks, get_elem?, contains, trim_space,
  last_index, contains_rune, pair_key, text_key, ◌≤◌, if◌then◌else◌, arith,
}
use whatsmcp.Sql.{Db, first}
use whatsmcp.Domain.Jid.{Jid, new_jid, parse_recipient, to_string, server_pn}
use whatsmcp.Domain.Jid.RoundTrip.{
  IsParsed, new_jid_sound, new_jid-to_string, parse_recipient_sound, parse_recipient-new_jid,
}
use whatsmcp.Bridge.Std.{ascii_std}
use whatsmcp.Bridge.Proto.{Message, nil, inner, plain, message, no_context, body, empty_body}
use whatsmcp.Bridge.Unwrap.{next, unwrap_message}
use whatsmcp.Bridge.Unwrap.Laws.{Wraps, bare, layer, unwrap_message-Wraps}
use whatsmcp.Bridge.Content.{extract_text_content, extract_quoted, body_text}
use whatsmcp.Bridge.Content.Laws.{extract_text_content-Wraps}
use whatsmcp.Bridge.Menu.{
  interactive_block, template_block, buttons_block, add, list_block, extract_menu_options,
  MenuOption,
}
use whatsmcp.Bridge.Menu.Options.{IsMenu, extract_menu_options-IsMenu}
use whatsmcp.Bridge.Choice.{choose_option, or_error, no_index, build_reply, Reply, reply_context}
use whatsmcp.Bridge.Choice.Laws.{
  choose_option_index, choose_option_sound, Fits, ClicksOn, build_reply_extracted,
}
use whatsmcp.Bridge.Vcard.{phones_of_vcard}
use whatsmcp.Bridge.Vcard.Phones.{IsPhoneList, phones_of_vcard-IsPhoneList}
use whatsmcp.Bridge.Media.{
  is_id_rune, short_id, unique_name, extract_media_info, extract_direct_path, no_media, media_of,
  body_media, MediaInfo,
}
use whatsmcp.Bridge.Media.Names.{short_id_safe, unique_name_idem}
use whatsmcp.Bridge.Media.Info.{extract_media_info_path}
use whatsmcp.Bridge.Store.{
  Tables, ChatRow, MessageRow, message_row, fill_history_message, store_message, store_direct_path,
  get_direct_path, get_media_info,
}
use whatsmcp.Bridge.Store.Menus.{Wire}
use whatsmcp.Bridge.Store.Invariant.{WellFormed}
use whatsmcp.Bridge.Store.Calls.{chat, calls, calls-WellFormed}
use whatsmcp.Bridge.Store.Rows.{
  Healthy, find_message, option_map, after_history, fill_history_message_lem,
  store_message-get_media_info, store_direct_path-get_direct_path,
}
use whatsmcp.Bridge.Vcard.{index}
use whatsmcp.Bridge.Audio.{Floats}
use whatsmcp.Bridge.Send.{Sender, failed, failed_send, compose, record_sent, send_whatsapp_message}
use whatsmcp.Bridge.Send.Laws.{record_sent_lem, send_whatsapp_message_failed}
use whatsmcp.Bridge.Download.{Files, extract_direct_path_from_url}
use whatsmcp.Bridge.Events.{MessageEvent, handle_message, Client, Conversation, handle_history_sync}
use whatsmcp.Bridge.Events.Invariant.{handle_message-WellFormed}
use whatsmcp.Bridge.Events.Keep.{Kept}
use whatsmcp.Bridge.Events.History.{handle_history_sync-Kept}

-- A text in a disappearing message.
abbrev core : Message
core = plain (record empty_body { conversation = codes "oi" })

abbrev outer : Message
outer =
    message (inner core) nil nil nil nil nil no_context no_context no_context no_context no_context
      no_context empty_body

-- Two buttons.
abbrev pub menu : Message
menu = plain (record empty_body {
  buttons = some (record {
    content_text = codes "Escolha";
    buttons =
        record { button_id = codes "a"; display_text = codes "Sim" }
        ∷ record { button_id = codes "b"; display_text = codes "Nao" }
        ∷ [];
  });
})

-- One chat with one message that has no content.
abbrev pub chat_row : ChatRow
chat_row = record { jid = codes "c"; name = codes "Ana"; last_message_time = 3 }

abbrev pub photo : MediaInfo
photo = record no_media { media_type = codes "image" }

abbrev pub message_one : MessageRow
message_one = message_row (codes "m") (codes "c") (codes "s") [] 3 false photo [] []

abbrev pub db_one : Db Tables
db_one = record {
  tables = record {
    chats = chat_row ∷ [];
    messages = message_one ∷ [];
    labels = [];
    label_chats = [];
    raws = [];
    options = [];
  };
  faults = [];
}

abbrev pub no_wire : Wire
no_wire = record { marshal = λ _. none; unmarshal = λ _. none }

pub db_one-WellFormed : WellFormed db_one.tables
unfolding first text_eq
db_one-WellFormed = ((tt, tt), (tt, tt), tt, tt, tt, tt, (refl, tt))

-- The photo is stored again, as another one.
abbrev other_photo : MediaInfo
other_photo = record photo { media_key = 7 ∷ []; file_sha256 = 8 ∷ []; file_enc_sha256 = 9 ∷ [] }

store_message-get_media_info_example :
    let (next, stored) =
      store_message (codes "m") (codes "c") (codes "s") [] 3 false other_photo [] [] db_one in
    (stored ≡ true)
    × ((get_media_info (codes "m") (codes "c") next).1 ≡ some other_photo)
    × ((get_direct_path (codes "m") (codes "c") next).1 ≡ [])
unfolding first text_eq
store_message-get_media_info_example =
    store_message-get_media_info (codes "m") (codes "c") (codes "s") [] 3 false other_photo [] []
      db_one chat_row refl refl refl

fill_history_message_lem_example :
    let (next, was_stored) =
      fill_history_message (codes "m") (codes "c") (codes "legenda") db_one in
    (was_stored ≡ is_some (find_message (codes "m", codes "c") db_one.tables))
    × Healthy next
    × (next.tables.chats ≡ db_one.tables.chats)
    × ((k : Text × Text)
        → find_message k next.tables
          ≡ option_map
              (after_history (codes "m", codes "c") (codes "legenda"))
              (find_message k db_one.tables))
fill_history_message_lem_example =
    fill_history_message_lem (codes "m") (codes "c") (codes "legenda") db_one refl

abbrev pub some_client : Client
some_client = record {
  own_user = codes "me";
  group_name = λ _. none;
  full_name = λ _. some (codes "Ana Maria");
  parse_jid = λ s. some (record { user = s; server = codes "s.whatsapp.net" });
  jid_string = λ j. j.user;
}

-- The stored message again, with a text, and a new one.
abbrev pub synced : Conversation
synced = record {
  id = some (codes "c");
  display_name = none;
  name = none;
  messages =
      some (record {
        key = some (record { from_me = none; participant = none; id = some (codes "m") });
        message = inner core;
        timestamp = 9;
      })
      ∷ none
      ∷ some (record {
        key = some (record { from_me = some true; participant = none; id = some (codes "n") });
        message = inner outer;
        timestamp = 8;
      })
      ∷ [];
}

handle_history_sync-Kept_example :
    Kept db_one (handle_history_sync ascii_std some_client (synced ∷ []) db_one)
handle_history_sync-Kept_example =
    handle_history_sync-Kept ascii_std some_client (synced ∷ []) db_one refl

-- The second button, chosen by its ID and clicked on.
abbrev pub second : MenuOption
second = record {
  index = 2;
  kind = codes "button";
  option_id = codes "b";
  title = codes "Nao";
  description = [];
  section = [];
  params_json = [];
}

second_read : get_elem? (extract_menu_options ascii_std (inner menu)) 1 ≡ some second
unfolding extract_menu_options unwrap_message next interactive_block template_block buttons_block
    add list_block
second_read = refl

build_reply_extracted_example :
    (r : Reply) × (build_reply second (codes "id") [] (codes "c") (inner menu) ≡ some r)
    × ClicksOn second 1 (reply_context (codes "id") [] (codes "c") (inner menu)) r
build_reply_extracted_example =
    build_reply_extracted ascii_std (inner menu) 1 second (codes "id") [] (codes "c") (inner menu)
      second_read (omega arith)

record_sent_lem_example :
    find_message
      (codes "x", codes "new")
      ((record_sent (codes "x") (codes "new") 5 (codes "oi") db_one).tables)
    ≡ some (message_row (codes "x") (codes "new") [] (codes "oi") 5 true no_media [] [])
record_sent_lem_example =
    record_sent_lem (codes "x") (codes "new") 5 (codes "oi") db_one refl refl refl

-- Integer arithmetic in the place of floating point.
abbrev pub some_floats : Floats
some_floats = record {
  ceil_quotient = λ a b. if b == 0 then 0 else (a + b - 1) / b;
  estimate = λ n. n / 2000;
  sample = λ d i. some (50 + i);
}

-- A sender whose client answers every send with an error.
abbrev pub failing : Sender
failing = record {
  connected = true;
  parse_jid = λ _. none;
  jid_string = λ j. j.user;
  twin = λ _. none;
  read_file = λ _. none;
  base = λ p. p;
  upload = λ _ _. none;
  floats = some_floats;
  spare = [];
  send_message = λ _ _. none;
}

send_fails :
    (send_whatsapp_message failing ascii_std (codes "5551") (codes "oi") [] db_one).1
    ≡ failed failed_send
unfolding send_whatsapp_message compose contains_rune
send_fails = refl

send_whatsapp_message_failed_example :
    (send_whatsapp_message failing ascii_std (codes "5551") (codes "oi") [] db_one).0.tables
    ≡ db_one.tables
send_whatsapp_message_failed_example =
    send_whatsapp_message_failed failing ascii_std (codes "5551") (codes "oi") [] db_one failed_send
      send_fails

-- An empty disk on which every write works.
abbrev pub disk : Files
disk = record {
  mkdir_all = λ _. true;
  abs = λ p. some (codes "/" ++ p);
  exists = λ _. false;
  download = λ _. some (1 ∷ []);
  write_file = λ _ _. true;
}

url_test :
    extract_direct_path_from_url (codes "https://mmg.whatsapp.net/v/t62.enc?ccb=11")
    ≡ codes "/v/t62.enc"
unfolding extract_direct_path_from_url index cut has_prefix
url_test = refl

-- A menu that is received in a chat of that name.
abbrev pub received : MessageEvent
received = record {
  id = codes "r";
  chat = record { user = codes "c"; server = codes "s.whatsapp.net" };
  sender_user = codes "c";
  timestamp = 12;
  is_from_me = false;
  message = menu;
}
