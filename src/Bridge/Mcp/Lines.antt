-- ===== src/Bridge/Mcp/Lines.antt =====
-- How the tools print a message: `displayName`, `formatMsg` and `formatLines` of
-- whatsapp-bridge/mcp.go.
pub mod Names
use whatsmcp.Base.{
  Bool, true, not, ◌&&◌, Option, none, some, List, [], ◌∷◌, ◌++◌, map, Text, codes, is_empty,
  text_eq, text_key, cut, take, if◌then◌else◌,
}
use whatsmcp.Sql.{Db, query, first, select, has_key}
use whatsmcp.Bridge.Store.{Tables, ChatRow, MessageRow, chat_key}
use whatsmcp.Bridge.Jids.{JidMap, sides, user_server, hidden_server}
use whatsmcp.Bridge.Mcp.{Engine, is_in}

-- What the client knows of a contact.
pub record Contact : Type 0 where
  pub full_name : Text
  pub push_name : Text

-- The client's contacts by the text of a JID, `none` where there is none or no client; and a `LIMIT 1`
-- without an order, which picks one of the rows.
pub record Namer : Type 0 where
  pub contact : Text → Option Contact
  pub limit_one : List Text → Option Text

-- The columns of `msgCols`; NULL is the empty text.
pub record MsgRow : Type 0 where
  pub ts : Text
  pub sender : Text
  pub chat_name : Text
  pub content : Text
  pub chat_jid : Text
  pub id : Text
  pub media_type : Text
  pub from_me : Bool

abbrev name_of_chat : Option ChatRow → Text
name_of_chat none = []
name_of_chat (some c) = c.name

-- A row of `messages` with the name of its chat, `msgFrom`.
unfoldable pub msg_row : Engine → Tables → MessageRow → MsgRow
unfolding first
msg_row engine t r = record {
  ts = engine.stored_time r.timestamp;
  sender = r.sender;
  chat_name = name_of_chat (first (has_key chat_key r.chat_jid) t.chats);
  content = r.content;
  chat_jid = r.chat_jid;
  id = r.id;
  media_type = r.media_type;
  from_me = r.is_from_me;
}

-- The name of a contact, or the one that comes from the contacts behind it.
abbrev pub known_as : Option Contact → Option Text → Option Text
known_as none rest = rest
known_as (some c) rest =
    if not (is_empty c.full_name)
    then some c.full_name
    else if not (is_empty c.push_name)
    then some c.push_name
    else rest

abbrev pub or_user : Text → Option (Option Text) → Text
or_user user (some (some name)) = name
or_user user (some none) = user
or_user user none = user

module _ (jids : JidMap) (namer : Namer) where
  -- The loop over the contacts.
  unfoldable pub contact_name : List Text → Option Text
  contact_name [] = none
  contact_name (s ∷ ss) = known_as (namer.contact s) (contact_name ss)

  -- The user as a hidden user and as a number, and the other side of both.
  unfoldable pub user_jids : Text → List Text
  unfolding sides
  user_jids user =
      sides jids (user ++ (b'@' ∷ hidden_server)) ++ sides jids (user ++ (b'@' ∷ user_server))

  abbrev pub names_chat : Text → ChatRow → Bool
  names_chat user c =
      is_in (user_jids user) c.jid && not (is_empty c.name) && not (text_eq c.name user)

  abbrev pub chat_names : Text → Tables → List Text
  chat_names user t = map (λ c. c.name) (select (names_chat user) t.chats)

  abbrev pub named_by_chat : Text → Option Text → Db Tables → Db Tables × Text
  named_by_chat user (some name) db = (db, name)
  named_by_chat user none db =
      let (asked, found) = query (λ t. namer.limit_one (chat_names user t)) db in
      (asked, or_user user found)

  unfoldable pub display_name : Text → Db Tables → Db Tables × Text
  unfolding contact_name user_jids query select is_in text_eq
  display_name user db = named_by_chat user (contact_name (user_jids user)) db

  abbrev pub from_name : MsgRow → Db Tables → Db Tables × Text
  from_name r db = if r.from_me then (db, codes "Me") else display_name r.sender db

  -- A direct chat whose name is its own number is shown under its user's name.
  abbrev pub shown_chat : MsgRow → Db Tables → Db Tables × Text
  shown_chat r db =
      let (user, server) = cut b'@' r.chat_jid in
      if text_eq r.chat_name user && not (text_eq server (codes "g.us"))
      then display_name user db
      else (db, r.chat_name)

  abbrev pub chat_part : Text → Text
  chat_part chat = if is_empty chat then [] else codes "Chat: " ++ (chat ++ codes " ")

  abbrev pub media_part : MsgRow → Text
  media_part r =
      if is_empty r.media_type
      then []
      else codes "["
        ++ (r.media_type
            ++ (codes " - Message ID: "
                ++ (r.id ++ (codes " - Chat JID: " ++ (r.chat_jid ++ codes "] ")))))

  unfoldable pub format_msg : MsgRow → Db Tables → Db Tables × Text
  unfolding display_name cut text_eq
  format_msg r db =
      let (asked, from) = from_name r db in
      let (again, chat) = shown_chat r asked in
      (
        again,
        codes "["
            ++ (take 19 r.ts
                ++ (codes "] "
                    ++ (chat_part chat
                        ++ (codes "From: "
                            ++ (from ++ (codes ": " ++ (media_part r ++ r.content))))))),
      )

  unfoldable pub format_lines : List MsgRow → Db Tables → Db Tables × List Text
  unfolding format_msg
  format_lines [] db = (db, [])
  format_lines (r ∷ rs) db =
      let (asked, line) = format_msg r db in
      let (done, lines) = format_lines rs asked in (done, line ∷ lines)
