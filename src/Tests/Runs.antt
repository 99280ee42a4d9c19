-- ===== src/Tests/Runs.antt =====
-- Runs of the bridge, and a menu that is stored.
use whatsmcp.Base.{
  ◌≡◌, ◌≤◌, refl, arith, true, false, none, [], ◌∷◌, List, ok, codes, is_empty, length, trim_space,
  contains_rune, text_eq,
}
use whatsmcp.Sql.{Db, insert_or_replace, update}
use whatsmcp.Bridge.Store.{Tables}
use whatsmcp.Bridge.Media.{extract_media_info}
use whatsmcp.Bridge.Std.{ascii_std}
use whatsmcp.Bridge.Unwrap.{unwrap_message, next}
use whatsmcp.Bridge.Proto.{inner, plain, empty_body}
use whatsmcp.Bridge.Content.{extract_text_content}
use whatsmcp.Bridge.Jids.{sides, jid_de, keep_digits}
use whatsmcp.Bridge.Mcp.{list_messages, is_in, or_default}
use whatsmcp.Bridge.Mcp.Shown.{Shows, Context, all_of, handle_message-Shows}
use whatsmcp.Bridge.Events.{MessageEvent, handle_message, handle_history_sync}
use whatsmcp.Tests.Reads.{some_engine, some_jids}
use whatsmcp.Bridge.Menu.{
  extract_menu_options, interactive_block, template_block, buttons_block, list_block, add,
}
use whatsmcp.Bridge.Store.Menus.{store_menu_options, get_menu_options}
use whatsmcp.Bridge.Store.Menus.Stored.{sound, store_menu_options-get_menu_options}
use whatsmcp.Bridge.Rest.Serve.{sync_labels_route}
use whatsmcp.Bridge.Run.{
  Running, Happening, client_event, worker_turn, http_request, to_worker, pending_message,
}
use whatsmcp.Tests.{db_one, some_client, received, no_wire, menu, synced}

has_menu : is_empty (extract_menu_options ascii_std (inner menu)) ≡ false
unfolding extract_menu_options unwrap_message next interactive_block template_block buttons_block
    list_block add
has_menu = refl

store_menu_options-get_menu_options_example :
    (get_menu_options (codes "m") (codes "c") (
      (store_menu_options
        (codes "m")
        (codes "c")
        (extract_menu_options ascii_std (inner menu))
        (sound db_one.tables)).0)).1
    ≡ ok (codes "m", extract_menu_options ascii_std (inner menu))
store_menu_options-get_menu_options_example =
    store_menu_options-get_menu_options ascii_std (inner menu) (codes "m") (codes "c") db_one.tables
      refl has_menu

-- A message arrives, a request comes in, and the worker takes its turn.
abbrev some_happenings : List Happening
some_happenings =
    client_event (to_worker (pending_message received))
    ∷ http_request
        (record { host = codes "localhost:8080"; cross_origin = none; route = sync_labels_route })
    ∷ worker_turn
    ∷ []

abbrev started : Running
started = record { event_queue = []; db = db_one }

-- A greeting in the chat of the stored message.
abbrev greeted : MessageEvent
greeted = record received { message = plain (record empty_body { conversation = codes "oi" }) }

has_text : is_empty (extract_text_content ascii_std (inner greeted.message)) ≡ false
unfolding extract_text_content unwrap_message next
has_text = refl

named : is_empty (trim_space (codes "c")) ≡ false
unfolding trim_space
named = refl

is_own : is_in (sides some_jids (codes "c")) (codes "c") ≡ true
unfolding is_in sides jid_de trim_space contains_rune keep_digits text_eq
is_own = refl

-- With a history sync behind it.
abbrev greeted_db : Db Tables
greeted_db =
    handle_history_sync ascii_std some_client (synced ∷ [])
      (handle_message ascii_std no_wire some_client greeted (sound db_one.tables))

few_rows : length greeted_db.tables.messages ≡ 3
unfolding handle_history_sync handle_message extract_text_content unwrap_message next text_eq
    insert_or_replace extract_media_info extract_menu_options interactive_block template_block
    buttons_block list_block update
few_rows = refl

is_enough : length greeted_db.tables.messages ≤ or_default 20 20
unfolding or_default
is_enough = omega (arith, few_rows)

abbrev by_default : Context
by_default = record { include = none; before = none; after = none }

handle_message-Shows_example :
    Shows
      (codes "r", codes "c")
      (extract_text_content ascii_std (inner greeted.message))
      ((list_messages some_engine some_jids true (all_of by_default (codes "c") 20) greeted_db).1)
handle_message-Shows_example =
    handle_message-Shows ascii_std no_wire some_client some_engine some_jids greeted (synced ∷ [])
      db_one.tables by_default 20 has_text named is_own is_enough
