-- ===== src/Bridge/Select/Laws.antt =====
-- What a click sends.
use whatsmcp.Base.{
  ℕ, ◌≡◌, ◌≤◌, refl, ◌∙◌, not, Option, none, some, List, Result, ok, err, Text, is_empty, length,
  All, get_elem?, arith, by_arms, pair_key, Bool-cases, Option-cases, inl, inr,
}
use whatsmcp.Sql.{Db, query}
use whatsmcp.Bridge.Std.{Std}
use whatsmcp.Bridge.Proto.{Inner}
use whatsmcp.Bridge.Events.{WaJid}
use whatsmcp.Bridge.Menu.{MenuOption}
use whatsmcp.Bridge.Choice.{ChoiceError, choose_option, Reply, build_reply}
use whatsmcp.Bridge.Choice.Laws.{Fits, choose_option_sound}
use whatsmcp.Bridge.Store.{Tables}
use whatsmcp.Bridge.Store.Menus.{
  Wire, MenuError, get_menu_options, read_options, get_raw_message, latest_menu,
}
use whatsmcp.Bridge.Select.{
  SelectOptionRequest, Replier, Selection, refused, offline, no_chat, participant_of, click,
  click_on, with_choice, with_menu, in_chat, select_option,
}

pub get_menu_options-tables :
    (id chat_jid : Text) (db : Db Tables) → (get_menu_options id chat_jid db).0.tables ≡ db.tables
unfolding get_menu_options read_options query
get_menu_options-tables id chat_jid db = elim (Bool-cases (is_empty id)) [
  | inr given ↦ rw given refl
  | inl latest ↦ elim (Option-cases ((query (latest_menu chat_jid) db).1)) [
    | inl e ↦ rw (latest, e) refl
    | inr (x, e) ↦ elim (Option-cases x) [
      | inl none_there ↦ rw (latest, e, none_there) refl
      | inr (found, there) ↦ rw (latest, e, there) refl
    ]
  ]
]

participant_of-tables :
    (chat : WaJid) (id chat_jid : Text) (db : Db Tables)
    → (participant_of chat id chat_jid db).0.tables ≡ db.tables
unfolding participant_of query
participant_of-tables chat id chat_jid db = ground arith

module _ (client : Replier) (lib : Std) (wire : Wire) where
  -- The reply clicks on one option of the menu that the request names, and the option is the one that
  -- it asks for.
  abbrev pub ClicksOnChosen :
      SelectOptionRequest → Result MenuError (Text × List MenuOption) → WaJid × Reply → Type 0
  ClicksOnChosen req menu (chat, r) =
      (id : Text) × (opts : List MenuOption) × (o : MenuOption) × (participant : Text)
      × (quoted : Inner) × (menu ≡ ok (id, opts))
      × ((i : ℕ) × (get_elem? opts i ≡ some o))
      × Fits lib req.option req.option_id req.title o
      × (build_reply o id participant (client.jid_string chat) quoted ≡ some r)

  abbrev pub OneClick :
      SelectOptionRequest
      → Result MenuError (Text × List MenuOption)
      → Db Tables
      → Db Tables × Selection
      → Type 0
  OneClick req menu db r =
      (r.0.tables ≡ db.tables) × (length r.1.sends ≤ 1) × All (ClicksOnChosen req menu) r.1.sends

  click-OneClick :
      (req : SelectOptionRequest) (menu : Result MenuError (Text × List MenuOption)) (id : Text)
      (opts : List MenuOption) (o : MenuOption) (chat : WaJid) (participant : Text) (quoted : Inner)
      (reply : Option Reply) (after db : Db Tables)
      → menu ≡ ok (id, opts)
      → (i : ℕ) × (get_elem? opts i ≡ some o)
      → Fits lib req.option req.option_id req.title o
      → build_reply o id participant (client.jid_string chat) quoted ≡ reply
      → after.tables ≡ db.tables
      → OneClick req menu db (after, click client lib wire chat o reply)
  click-OneClick req menu id opts o chat participant quoted none after db read at fits built same =
      (same, omega arith, tt)
  click-OneClick req menu id opts o chat participant quoted (some r) after db read at fits built
        same =
      (same, omega arith, ((id, opts, o, participant, quoted, read, at, fits, built), tt))

  click_on-OneClick :
      (req : SelectOptionRequest) (menu : Result MenuError (Text × List MenuOption)) (id : Text)
      (opts : List MenuOption) (o : MenuOption) (chat : WaJid) (asked db : Db Tables)
      → menu ≡ ok (id, opts)
      → (i : ℕ) × (get_elem? opts i ≡ some o)
      → Fits lib req.option req.option_id req.title o
      → asked.tables ≡ db.tables
      → OneClick req menu db (click_on client lib wire chat id req.chat_jid o asked)
  unfolding click_on get_raw_message query
  click_on-OneClick req menu id opts o chat asked db read at fits same =
      click-OneClick req menu id opts o chat _ _ _
        ((click_on client lib wire chat id req.chat_jid o asked).0) db read at fits refl
        (participant_of-tables chat id req.chat_jid asked ∙ same)

  with_choice-OneClick :
      (req : SelectOptionRequest) (menu : Result MenuError (Text × List MenuOption)) (id : Text)
      (opts : List MenuOption) (choice : Result ChoiceError MenuOption) (chat : WaJid)
      (asked db : Db Tables)
      → menu ≡ ok (id, opts)
      → choose_option lib opts req.option req.option_id req.title ≡ choice
      → asked.tables ≡ db.tables
      → OneClick req menu db (with_choice client lib wire chat id req.chat_jid choice asked)
  with_choice-OneClick req menu id opts (err e) chat asked db read chosen same =
      (same, omega arith, tt)
  with_choice-OneClick req menu id opts (ok o) chat asked db read chosen same =
      let (fits, at) = choose_option_sound lib opts req.option req.option_id req.title o chosen in
      click_on-OneClick req menu id opts o chat asked db read at fits same

  with_menu-OneClick :
      (req : SelectOptionRequest) (menu : Result MenuError (Text × List MenuOption)) (chat : WaJid)
      (asked db : Db Tables)
      → asked.tables ≡ db.tables
      → OneClick req menu db (with_menu client lib wire chat req menu asked)
  with_menu-OneClick req (err e) chat asked db same = (same, omega arith, tt)
  with_menu-OneClick req (ok (id, opts)) chat asked db same =
      with_choice-OneClick req (ok (id, opts)) id opts _ chat asked db refl refl same

  -- The menu that the request reads.
  abbrev pub menu_read : SelectOptionRequest → Db Tables → Result MenuError (Text × List MenuOption)
  menu_read req db = (get_menu_options req.message_id req.chat_jid db).1

  in_chat-OneClick :
      (chat : Option WaJid) (req : SelectOptionRequest) (db : Db Tables)
      → OneClick req (menu_read req db) db (in_chat client lib wire chat req db)
  in_chat-OneClick none req db = (refl, omega arith, tt)
  in_chat-OneClick (some chat) req db =
      with_menu-OneClick req (menu_read req db) chat _ db
        (get_menu_options-tables req.message_id req.chat_jid db)

  -- A request to select an option sends at most one reply, which clicks on an option of the stored menu
  -- that it names, the one that fits its number, ID or title; it writes nothing to the store.
  pub select_option-OneClick :
      (req : SelectOptionRequest) (db : Db Tables)
      → OneClick req (menu_read req db) db (select_option client lib wire req db)
  unfolding select_option
  select_option-OneClick req db =
      by_arms (OneClick req (menu_read req db) db) (not client.connected) (db, refused offline) _
        (λ _. (refl, omega arith, tt))
        (λ _.
          by_arms (OneClick req (menu_read req db) db) (is_empty req.chat_jid) (db, refused no_chat)
            (in_chat client lib wire (client.parse_jid req.chat_jid) req db)
            (λ _. (refl, omega arith, tt))
            (λ _. in_chat-OneClick (client.parse_jid req.chat_jid) req db))
