-- ===== src/Bridge/Groups.antt =====
-- The group commands of the REST server, whatsapp-bridge/grupos.go.
pub mod Laws
use whatsmcp.Base.{
  ℕ, Bool, true, false, not, ◌&&◌, ◌==◌, Option, none, some, List, [], ◌∷◌, ◌++◌, map, Text, codes,
  is_empty, text_eq, trim_space, length, ltb, if◌then◌else◌,
}
use whatsmcp.Bridge.Std.{Std}
use whatsmcp.Bridge.Events.{WaJid}
use whatsmcp.Bridge.Jids.{JidMap, jid_de}

-- The longest name that WhatsApp takes.
abbrev pub max_group_name : ℕ
max_group_name = 25

pub data Change : Type 0 where
  change_add change_remove change_promote change_demote : Change

-- What is asked of WhatsApp.
pub data GroupCommand : Type 0 where
  create_group : (name : Text) → List WaJid → GroupCommand
  joined_groups : GroupCommand
  group_info : WaJid → GroupCommand
  update_participants : WaJid → List WaJid → Change → GroupCommand
  set_group_name : WaJid → Text → GroupCommand
  set_group_topic : WaJid → Text → GroupCommand
  is_on_whatsapp : List Text → GroupCommand

-- `types.GroupInfo`, and what the answers show of it.
pub record Participant : Type 0 where
  pub jid : WaJid
  pub is_admin : Bool
  pub is_super_admin : Bool
  pub error : ℕ

pub record GroupInfo : Type 0 where
  pub jid : WaJid
  pub name : Text
  pub topic : Text
  pub created : ℕ
  pub owner : WaJid
  pub participants : List Participant

pub record ParticipantOut : Type 0 where
  pub jid : Text
  pub admin : Bool
  pub super_admin : Bool
  pub error : Option ℕ

pub record GroupOut : Type 0 where
  pub jid : Text
  pub name : Text
  pub topic : Text
  pub created : ℕ
  pub owner : Text
  pub participants : List ParticipantOut

-- What WhatsApp answers: a group, the groups, the error of each participant, whether each number has
-- an account, or nothing.
pub data GroupAnswer : Type 0 where
  one_group : GroupInfo → GroupAnswer
  all_groups : List GroupInfo → GroupAnswer
  changes : List (WaJid × ℕ) → GroupAnswer
  numbers : List (Text × (Bool × WaJid)) → GroupAnswer
  nothing : GroupAnswer

pub data GroupError : Type 0 where
  use_post : GroupError
  invalid_json : GroupError
  name_required : GroupError
  name_too_long : ℕ → GroupError
  participants_required : GroupError
  phones_required : GroupError
  bridge_offline : GroupError
  bad_number : GroupError
  bad_action : GroupError
  nothing_to_edit : GroupError
  whatsapp_refused : GroupError

pub data GroupReply : Type 0 where
  group_error : (status : ℕ) → GroupError → GroupReply
  group_done : GroupAnswer → GroupReply
  group_changed : List Text → GroupReply

-- What a handler asked of WhatsApp, in order, and its reply.
pub record Reaction : Type 0 where
  pub commands : List GroupCommand
  pub reply : GroupReply

-- The client, if it is there and logged in, and its answer to a command; `none` is an error.
pub record GroupClient : Type 0 where
  pub ready : Bool
  pub jids : JidMap
  pub answer : GroupCommand → Option GroupAnswer

-- The bodies; an absent field of the text type is empty, a pointer may be nil.
pub data GroupRequest : Type 0 where
  create_request : (name : Text) (participants : List Text) → GroupRequest
  list_request : GroupRequest
  info_request : (jid : Text) → GroupRequest
  participants_request : (jid action : Text) (participants : List Text) → GroupRequest
  edit_request : (jid : Text) (name topic : Option Text) → GroupRequest
  numbers_request : List Text → GroupRequest

abbrev pub fails : ℕ → GroupError → Reaction
fails status e = record { commands = []; reply = group_error status e }

abbrev pub too_long : Text → Bool
too_long name = ltb max_group_name (length name)

module _ (client : GroupClient) where
  unfoldable pub participant_out : Participant → ParticipantOut
  participant_out p = record {
    jid = client.jids.jid_string p.jid;
    admin = p.is_admin;
    super_admin = p.is_super_admin;
    error = if p.error == 0 then none else some p.error;
  }

  unfoldable pub group_summary : GroupInfo → GroupOut
  unfolding participant_out
  group_summary g = record {
    jid = client.jids.jid_string g.jid;
    name = g.name;
    topic = g.topic;
    created = g.created;
    owner = client.jids.jid_string g.owner;
    participants = map participant_out g.participants;
  }

  abbrev pub and_jid : Option WaJid → Option (List WaJid) → Option (List WaJid)
  and_jid none rest = none
  and_jid (some j) none = none
  and_jid (some j) (some js) = some (j ∷ js)

  -- The loop over the participants, which ends at the first that is no JID.
  unfoldable pub jids_of : List Text → Option (List WaJid)
  unfolding jid_de
  jids_of [] = some []
  jids_of (p ∷ ps) = and_jid (jid_de client.jids p) (jids_of ps)

  abbrev answer_reply : Option GroupAnswer → GroupReply
  answer_reply none = group_error 500 whatsapp_refused
  answer_reply (some a) = group_done a

  abbrev pub ask : GroupCommand → Reaction
  ask c = record { commands = c ∷ []; reply = answer_reply (client.answer c) }

  -- `clientePronto`.
  abbrev pub if_ready : Reaction → Reaction
  if_ready r = if client.ready then r else fails 503 bridge_offline

  abbrev pub create_with : Text → Option (List WaJid) → Reaction
  create_with name none = fails 400 bad_number
  create_with name (some js) = ask (create_group name js)

  unfoldable pub group_create : Text → List Text → Reaction
  unfolding jids_of trim_space
  group_create raw participants =
      let name = trim_space raw in
      if is_empty name
      then fails 400 name_required
      else if too_long name
      then fails 400 (name_too_long (length name))
      else if is_empty participants
      then fails 400 participants_required
      else if_ready (create_with name (jids_of participants))

  unfoldable pub list_groups : Reaction
  list_groups = if_ready (ask joined_groups)

  abbrev pub info_of : Option WaJid → Reaction
  info_of none = fails 400 bad_number
  info_of (some j) = ask (group_info j)

  unfoldable pub group_detail : Text → Reaction
  unfolding jid_de
  group_detail jid = if_ready (info_of (jid_de client.jids jid))

  abbrev pub update_in : Option WaJid → Option (List WaJid) → Change → Reaction
  update_in none js change = fails 400 bad_number
  update_in (some group) none change = fails 400 bad_number
  update_in (some group) (some js) change = ask (update_participants group js change)

  abbrev pub update_by : Option Change → Text → List Text → Reaction
  update_by none jid participants = fails 400 bad_action
  update_by (some change) jid participants =
      if is_empty participants
      then fails 400 participants_required
      else if_ready (update_in (jid_de client.jids jid) (jids_of participants) change)

  -- The actions by name.
  unfoldable pub action_of : Text → Option Change
  unfolding text_eq
  action_of a =
      if text_eq a (codes "add")
      then some change_add
      else if text_eq a (codes "remove")
      then some change_remove
      else if text_eq a (codes "promote")
      then some change_promote
      else if text_eq a (codes "demote")
      then some change_demote
      else none

  unfoldable pub group_participants : Std → (jid action : Text) → List Text → Reaction
  unfolding jids_of jid_de action_of trim_space
  group_participants lib jid action participants =
      update_by (action_of (map lib.to_lower (trim_space action))) jid participants

  -- One of the two edits, before the rest; its error ends the handler.
  abbrev pub then_edit : GroupCommand → Option GroupAnswer → Reaction → Reaction
  then_edit c none rest = record { commands = c ∷ []; reply = group_error 500 whatsapp_refused }
  then_edit c (some a) rest = record rest { commands = c ∷ rest.commands }

  abbrev edited : List Text → GroupReply
  edited done = if is_empty done then group_error 400 nothing_to_edit else group_changed done

  abbrev pub edit_topic : WaJid → List Text → Option Text → Reaction
  edit_topic group done none = record { commands = []; reply = edited done }
  edit_topic group done (some topic) =
      then_edit (set_group_topic group topic) (client.answer (set_group_topic group topic))
        (record { commands = []; reply = group_changed (done ++ codes "topic" ∷ []) })

  abbrev pub edit_name : WaJid → Option Text → Option Text → Reaction
  edit_name group none topic = edit_topic group [] topic
  edit_name group (some name) topic =
      if too_long name
      then fails 400 (name_too_long (length name))
      else then_edit (set_group_name group name) (client.answer (set_group_name group name))
          (edit_topic group (codes "name" ∷ []) topic)

  abbrev pub edit_in : Option WaJid → Option Text → Option Text → Reaction
  edit_in none name topic = fails 400 bad_number
  edit_in (some group) name topic = edit_name group name topic

  unfoldable pub group_edit : Text → (name topic : Option Text) → Reaction
  unfolding jid_de
  group_edit jid name topic = if_ready (edit_in (jid_de client.jids jid) name topic)

  unfoldable pub on_whatsapp : List Text → Reaction
  on_whatsapp phones =
      if is_empty phones then fails 400 phones_required else if_ready (ask (is_on_whatsapp phones))

  -- Whether the method must be POST.
  abbrev pub reads_only : GroupRequest → Bool
  reads_only list_request = true
  reads_only (info_request jid) = true
  reads_only _ = false

  abbrev pub handle_body : Std → GroupRequest → Reaction
  handle_body lib (create_request name participants) = group_create name participants
  handle_body lib list_request = list_groups
  handle_body lib (info_request jid) = group_detail jid
  handle_body lib (participants_request jid action participants) =
      group_participants lib jid action participants
  handle_body lib (edit_request jid name topic) = group_edit jid name topic
  handle_body lib (numbers_request phones) = on_whatsapp phones

  -- A request to one of the routes; `none` is a body that the decoder refuses.
  unfoldable pub handle_group : Std → (post : Bool) → Option GroupRequest → Reaction
  unfolding group_create list_groups group_detail group_participants group_edit on_whatsapp
  handle_group lib post none = if post then fails 400 invalid_json else fails 405 use_post
  handle_group lib post (some r) =
      if not post && not (reads_only r) then fails 405 use_post else handle_body lib r
