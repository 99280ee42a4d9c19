-- ===== src/Bridge/AppState/Star.antt =====
-- Starring messages: the handler of whatsapp-bridge/star.go.
pub mod Laws
use whatsmcp.Base.{
  ℕ, ◌+◌, Bool, true, false, not, Option, none, some, List, [], ◌∷◌, ◌++◌, Text, is_empty, Result,
  ok, err, if◌then◌else◌,
}
use whatsmcp.Bridge.Events.{WaJid}
use whatsmcp.Bridge.AppState.{
  StateClient, StateError, method_not_allowed, not_connected, invalid_json, nothing_asked,
  invalid_target, invalid_sender, Mutation, star_message, Patched, refuse, send_patch,
}

pub record StarTarget : Type 0 where
  pub chat_jid : Text
  pub message_id : Text
  pub from_me : Bool
  pub sender : Text

pub record StarRequest : Type 0 where
  pub single : StarTarget
  pub starred : Option Bool
  pub messages : List StarTarget

-- The list with the single message at the end, if it has an ID.
abbrev pub all_targets : StarRequest → List StarTarget
all_targets r = if is_empty r.single.message_id then r.messages else r.messages ++ r.single ∷ []

abbrev pub is_starred : Option Bool → Bool
is_starred none = true
is_starred (some b) = b

module _ (client : StateClient) where
  -- The sender, who is the chat where none is given; `none` is an error.
  abbrev pub sender_of : WaJid → Text → Option WaJid
  sender_of chat s = if is_empty s then some chat else client.jids.parse_jid s

  abbrev pub star_from : ℕ → Bool → StarTarget → WaJid → Option WaJid → Result StateError Mutation
  star_from i starred t chat none = err (invalid_sender i)
  star_from i starred t chat (some sender) =
      ok (star_message chat sender t.message_id t.from_me starred)

  abbrev pub star_in : ℕ → Bool → StarTarget → Option WaJid → Result StateError Mutation
  star_in i starred t none = err (invalid_target i)
  star_in i starred t (some chat) =
      if is_empty t.message_id
      then err (invalid_target i)
      else star_from i starred t chat (sender_of chat t.sender)

  -- The mutation for one message, the `i`th.
  unfoldable pub star_one : ℕ → Bool → StarTarget → Result StateError Mutation
  star_one i starred t = star_in i starred t (client.jids.parse_jid t.chat_jid)

  abbrev pub then_rest :
      Result StateError Mutation
      → Result StateError (List Mutation)
      → Result StateError (List Mutation)
  then_rest (err e) rest = err e
  then_rest (ok m) (err e) = err e
  then_rest (ok m) (ok ms) = ok (m ∷ ms)

  -- The loop, which ends at the first message that is refused.
  unfoldable pub star_all : ℕ → Bool → List StarTarget → Result StateError (List Mutation)
  unfolding star_one
  star_all i starred [] = ok []
  star_all i starred (t ∷ ts) = then_rest (star_one i starred t) (star_all (i + 1) starred ts)

  abbrev pub star_patch : Result StateError (List Mutation) → Patched
  star_patch (err e) = refuse 400 e
  star_patch (ok patch) = send_patch client patch

  abbrev pub star_body : Option StarRequest → Patched
  star_body none = refuse 400 invalid_json
  star_body (some r) =
      if is_empty (all_targets r)
      then refuse 400 nothing_asked
      else star_patch (star_all 0 (is_starred r.starred) (all_targets r))

  unfoldable pub handle_star : (post : Bool) → Option StarRequest → Patched
  unfolding star_all
  handle_star post body =
      if not post
      then refuse 405 method_not_allowed
      else if not client.ready
      then refuse 503 not_connected
      else star_body body
