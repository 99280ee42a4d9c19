-- ===== src/Tests/Reads.antt =====
-- Runs of the reads of the MCP server.
use whatsmcp.Base.{
  cut, text_eq, ◌≡◌, refl, Option, List, Text, ◌+◌, ◌≤◌, true, false, none, some, [], ◌∷◌, codes,
  length, All,
}
use whatsmcp.Bridge.Jids.{JidMap, sides}
use whatsmcp.Bridge.Mcp.{Engine, ListMessagesIn, asked_chat, list_messages, or_default}
use whatsmcp.Bridge.Mcp.Privacy.{InChats, OfAnswer, list_messages-InChats}
use whatsmcp.Bridge.Mcp.Chats.{ListChatsIn, list_chats}
use whatsmcp.Bridge.Mcp.Chats.Laws.{IsDistinct, list_chats_page}
use whatsmcp.Bridge.Mcp.Lines.{Namer, MsgRow, format_msg}
use whatsmcp.Tests.{db_one}

-- Single digits as times, and patterns that fit everything.
abbrev pub some_engine : Engine
some_engine = record { stored_time = λ n. (n + 48) ∷ []; like = λ p s. true; lower = λ s. s }

abbrev pub some_jids : JidMap
some_jids = record {
  parse_jid = λ s. some (record { user = s; server = codes "s.whatsapp.net" });
  jid_string = λ j. j.user;
  to_non_ad = λ j. j;
  alt_jid = λ j. some (record { user = codes "h"; server = codes "lid" });
}

abbrev all_of_c : ListMessagesIn
all_of_c = record {
  after = [];
  before = [];
  sender_phone = [];
  chat_jid = codes "c";
  query = [];
  limit = 0;
  page = 0;
  include_context = none;
  context_before = none;
  context_after = none;
}

list_messages-InChats_example :
    OfAnswer
      (All (InChats (sides some_jids (asked_chat some_engine some_jids all_of_c))))
      ((list_messages some_engine some_jids true all_of_c db_one).1)
list_messages-InChats_example = list_messages-InChats some_engine some_jids true all_of_c db_one

abbrev some_chats : ListChatsIn
some_chats = record { query = codes "a"; limit = 1; page = 0; last_message = false; sort_by = [] }

list_chats_page_example :
    OfAnswer
      (λ cs. (length cs ≤ or_default 1 20) × IsDistinct cs)
      ((list_chats some_engine some_jids true some_chats db_one).1)
list_chats_page_example = list_chats_page some_engine some_jids true some_chats db_one

-- A client without contacts, and an engine that picks the first row.
abbrev first_row : List Text → Option Text
first_row [] = none
first_row (n ∷ names) = some n

abbrev some_namer : Namer
some_namer = record { contact = λ _. none; limit_one = first_row }

-- An own photo in a group.
abbrev own_photo : MsgRow
own_photo = record {
  ts = codes "2026-01-02 10:11:12+00:00";
  sender = codes "me";
  chat_name = codes "Obra";
  content = codes "oi";
  chat_jid = codes "1@g.us";
  id = codes "m";
  media_type = codes "image";
  from_me = true;
}

format_msg_test :
    (format_msg some_jids some_namer own_photo db_one).1
    ≡ codes
        "[2026-01-02 10:11:12] Chat: Obra From: Me: [image - Message ID: m - Chat JID: 1@g.us] oi"
unfolding format_msg cut text_eq
format_msg_test = refl
