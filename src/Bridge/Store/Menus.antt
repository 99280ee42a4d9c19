-- ===== src/Bridge/Store/Menus.antt =====
-- The menu options and raw messages of the store (whatsapp-bridge/menu.go).
pub mod Stored
use whatsmcp.Base.{
  ℕ, Bool, true, false, not, ◌&&◌, ◌||◌, Option, none, some, List, [], ◌∷◌, map, Text, is_empty,
  text_eq, ltb, leb, ◌==◌, if◌then◌else◌, Key, pair_key, text_key, pair_eq, ◌↔◌, ◌≡◌, ==_iff, arith,
  pair_eq_iff, Result, ok, err,
}
use whatsmcp.Sql.{
  Db, exec, query, transaction, first, select, delete, has_key, insert, insert_or_replace, order_by,
}
use whatsmcp.Bridge.Proto.{Message}
use whatsmcp.Bridge.Menu.{MenuOption}
use whatsmcp.Bridge.Store.{
  Tables, OptionRow, option_owner, RawRow, raw_key, MessageRow, message_key,
}

-- The primary key of an option: its message, and its index.
abbrev pub option_key : OptionRow → (Text × Text) × ℕ
option_key r = (option_owner r, r.option.index)

abbrev pub option_key_eq : (Text × Text) × ℕ → (Text × Text) × ℕ → Bool
option_key_eq (p, i) (q, j) = pair_eq p q && i == j

pub option_key_eq_iff : (a b : (Text × Text) × ℕ) → (option_key_eq a b ≡ true) ↔ (a ≡ b)
option_key_eq_iff (p, i) (q, j) = ground (arith, pair_eq_iff p q, ==_iff i j)

instance abbrev pub option_key_key : Key ((Text × Text) × ℕ)
option_key_key = record { beq = option_key_eq; beq_iff = option_key_eq_iff }

abbrev pub option_row : Text → Text → MenuOption → OptionRow
option_row id chat_jid o = record { message_id = id; chat_jid = chat_jid; option = o }

unfoldable pub drop_options : Text → Text → Tables → Option Tables
unfolding delete
drop_options id chat_jid t =
    some (record t { options = delete (has_key option_owner (id, chat_jid)) t.options })

unfoldable pub put_option : OptionRow → Tables → Option Tables
unfolding insert
put_option r t = elim (insert option_key r t.options) [
  | none ↦ none
  | some rows ↦ some (record t { options = rows })
]

abbrev pub put_options : Text → Text → List MenuOption → List (Tables → Option Tables)
put_options id chat_jid [] = []
put_options id chat_jid (o ∷ opts) =
    put_option (option_row id chat_jid o) ∷ put_options id chat_jid opts

unfoldable pub store_menu_options : Text → Text → List MenuOption → Db Tables → Db Tables × Bool
unfolding transaction drop_options put_option
store_menu_options id chat_jid opts db =
    if is_empty opts
    then (db, true)
    else transaction (drop_options id chat_jid ∷ put_options id chat_jid opts) db

-- `proto.Marshal` and `proto.Unmarshal`; `none` is an error.
pub record Wire : Type 0 where
  pub marshal : Message → Option (List ℕ)
  pub unmarshal : List ℕ → Option Message

abbrev pub put_raw : RawRow → Tables → Option Tables
put_raw r t = some (record t { raws = insert_or_replace raw_key r t.raws })

module _ (wire : Wire) where
  unfoldable pub store_raw_message : Text → Text → Message → Db Tables → Db Tables × Bool
  unfolding exec
  store_raw_message id chat_jid msg db = elim (wire.marshal msg) [
    | none ↦ (db, false)
    | some b ↦ exec (put_raw (record { message_id = id; chat_jid = chat_jid; proto = b })) db
  ]

  abbrev decode : Option (Option RawRow) → Option Message
  decode none = none
  decode (some none) = none
  decode (some (some r)) = if is_empty r.proto then none else wire.unmarshal r.proto

  unfoldable pub get_raw_message : Text → Text → Db Tables → Db Tables × Option Message
  unfolding query first
  get_raw_message id chat_jid db =
      let (asked, row) = query (λ t. first (has_key raw_key (id, chat_jid)) t.raws) db in
      (asked, decode row)

-- `ORDER BY idx`.
abbrev pub by_index : OptionRow → OptionRow → Bool
by_index r s = leb r.option.index s.option.index

-- The options of a chat joined with their messages, of the messages received.
unfoldable pub join_received : List MessageRow → List OptionRow → List (OptionRow × MessageRow)
unfolding first
join_received messages [] = []
join_received messages (o ∷ os) =
    let rest = join_received messages os in
    elim (first (has_key message_key (option_owner o)) messages) [
      | none ↦ rest
      | some m ↦ if m.is_from_me then rest else (o, m) ∷ rest
    ]

-- `ORDER BY m.timestamp DESC, o.idx ASC`.
abbrev pub latest_first : OptionRow × MessageRow → OptionRow × MessageRow → Bool
latest_first (o, m) (p, n) =
    ltb n.timestamp m.timestamp || (m.timestamp == n.timestamp && leb o.option.index p.option.index)

abbrev head_id : List (OptionRow × MessageRow) → Option Text
head_id [] = none
head_id ((o, m) ∷ rest) = some o.message_id

unfoldable pub latest_menu : Text → Tables → Option Text
unfolding select join_received order_by
latest_menu chat_jid t = head_id (
    order_by latest_first
      (join_received t.messages (select (λ o. text_eq o.chat_jid chat_jid) t.options)))

pub data MenuError : Type 0 where
  -- `nenhum menu recebido neste chat`.
  no_menu_received : MenuError
  -- `mensagem %s nao tem opcoes guardadas`.
  no_options_stored : Text → MenuError
  -- An error of the engine.
  engine_error : MenuError

unfoldable pub options_of : Text → Text → Tables → List MenuOption
unfolding select order_by
options_of id chat_jid t =
    map (λ r. r.option) (order_by by_index (select (has_key option_owner (id, chat_jid)) t.options))

abbrev pub options_result :
    Text → Option (List MenuOption) → Result MenuError (Text × List MenuOption)
options_result id none = err engine_error
options_result id (some out) = if is_empty out then err (no_options_stored id) else ok (id, out)

unfoldable pub read_options :
    Text → Text → Db Tables → Db Tables × Result MenuError (Text × List MenuOption)
unfolding query options_of
read_options id chat_jid db =
    let (asked, out) = query (options_of id chat_jid) db in (asked, options_result id out)

-- With an empty ID, the latest menu of the chat.
unfoldable pub get_menu_options :
    Text → Text → Db Tables → Db Tables × Result MenuError (Text × List MenuOption)
unfolding query latest_menu read_options
get_menu_options id chat_jid db =
    if not (is_empty id)
    then read_options id chat_jid db
    else let (asked, latest) = query (latest_menu chat_jid) db in
      elim latest [
        | none ↦ (asked, err engine_error)
        | some none ↦ (asked, err no_menu_received)
        | some (some found) ↦ read_options found chat_jid asked
      ]
