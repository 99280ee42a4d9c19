-- ===== src/Bridge/AppState/Mute.antt =====
-- Muting chats: the handler of whatsapp-bridge/mute.go.
pub mod Laws
use whatsmcp.Base.{
  ℕ, ◌*◌, Bool, true, false, not, ◌&&◌, ◌||◌, Option, none, some, List, [], ◌∷◌, ◌++◌, map, Text,
  is_empty, is_some, text_eq, Result, ok, err, if◌then◌else◌,
}
use whatsmcp.Bridge.Events.{WaJid}
use whatsmcp.Bridge.Send.{is_person_chat, chat_twins}
use whatsmcp.Bridge.AppState.{
  StateClient, StateError, method_not_allowed, not_connected, invalid_json, nothing_asked,
  hours_negative, invalid_chat, Mutation, mute_chat, Patched, refuse, send_patch,
}

-- The `hours` of a request: none, a negative number, or the duration that they come to, in
-- nanoseconds.
pub data Hours : Type 0 where
  default_hours : Hours
  negative_hours : Hours
  hours_of : (duration : ℕ) → Hours

pub record MuteRequest : Type 0 where
  pub chat_jid : Text
  pub chat_jids : List Text
  pub hours : Hours
  pub mute : Option Bool

-- `newChatMute`: seven days.
abbrev pub new_chat_mute : ℕ
new_chat_mute = 7 * 24 * 3600 * 1000000000

abbrev pub same_jid : WaJid → WaJid → Bool
same_jid j k = text_eq j.user k.user && text_eq j.server k.server

abbrev pub is_seen : List WaJid → WaJid → Bool
is_seen [] j = false
is_seen (s ∷ ss) j = same_jid s j || is_seen ss j

-- The chats that are new are added at the end.
unfoldable pub add_new : List WaJid → List WaJid → List WaJid
unfolding text_eq
add_new jids [] = jids
add_new jids (x ∷ xs) = if is_seen jids x then add_new jids xs else add_new (jids ++ x ∷ []) xs

-- `BuildMute` for each chat, in one patch.
unfoldable pub mute_chats : List WaJid → Bool → ℕ → List Mutation
mute_chats [] mute duration = []
mute_chats (j ∷ js) mute duration = mute_chat j mute duration ∷ mute_chats js mute duration

-- The targets with the single chat at the end.
abbrev pub targets_of : MuteRequest → List Text
targets_of r = if is_empty r.chat_jid then r.chat_jids else r.chat_jids ++ r.chat_jid ∷ []

abbrev pub duration_of : Hours → Option ℕ
duration_of default_hours = some new_chat_mute
duration_of negative_hours = none
duration_of (hours_of d) = some d

abbrev pub or_true : Option Bool → Bool
or_true none = true
or_true (some b) = b

module _ (client : StateClient) where
  -- A person's chat is muted under both of its JIDs.
  unfoldable pub chats_of : WaJid → List WaJid
  unfolding text_eq chat_twins
  chats_of j = if is_person_chat j then chat_twins client.jids j else j ∷ []

  -- A target that is a JID with a user.
  abbrev pub with_user : Option WaJid → Option WaJid
  with_user none = none
  with_user (some j) = if is_empty j.user then none else some j

  abbrev pub parse_target : Text → Option WaJid
  parse_target s = with_user (client.jids.parse_jid s)

  abbrev pub chats_at : Option WaJid → List WaJid
  chats_at none = []
  chats_at (some j) = chats_of j

  -- The loop over the targets: the chats, or the first target that is refused.
  unfoldable pub collect : List WaJid → List Text → Result Text (List WaJid)
  unfolding add_new chats_of
  collect jids [] = ok jids
  collect jids (s ∷ ss) =
      let rest = collect (add_new jids (chats_at (parse_target s))) ss in
      if is_some (parse_target s) then rest else err s

  abbrev pub mute_collected : Bool → ℕ → Result Text (List WaJid) → Patched
  mute_collected mute duration (err s) = refuse 400 (invalid_chat s)
  mute_collected mute duration (ok jids) = send_patch client (mute_chats jids mute duration)

  abbrev pub mute_for : MuteRequest → Option ℕ → Patched
  mute_for r none = refuse 400 hours_negative
  mute_for r (some duration) = mute_collected (or_true r.mute) duration (collect [] (targets_of r))

  abbrev pub mute_body : Option MuteRequest → Patched
  mute_body none = refuse 400 invalid_json
  mute_body (some r) =
      if is_empty (targets_of r) then refuse 400 nothing_asked else mute_for r (duration_of r.hours)

  unfoldable pub handle_mute : (post : Bool) → Option MuteRequest → Patched
  unfolding collect mute_chats
  handle_mute post body =
      if not post
      then refuse 405 method_not_allowed
      else if not client.ready
      then refuse 503 not_connected
      else mute_body body

  -- The mute behind the first send to a chat.
  unfoldable pub mute_new_chat : WaJid → List Mutation
  unfolding chat_twins mute_chats
  mute_new_chat j = mute_chats (chat_twins client.jids j) true new_chat_mute
