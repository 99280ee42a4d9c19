-- ===== src/Bridge/AppState.antt =====
-- The commands that change the account's state: mute.go, star.go and contact.go of whatsapp-bridge.
-- A JID is its user and server.
pub mod Mute
pub mod Star
pub mod Contact
use whatsmcp.Base.{ℕ, Bool, List, [], ◌∷◌, Text, codes, Option, none, some}
use whatsmcp.Bridge.Events.{WaJid}
use whatsmcp.Bridge.Send.{Sender}

-- `appstate.MutationInfo`, as `BuildMute`, `BuildStar` and `buildContactName` make it.
pub data Mutation : Type 0 where
  mute_chat : WaJid → (mute : Bool) → (duration : ℕ) → Mutation
  star_message : (chat sender : WaJid) → (id : Text) → (from_me starred : Bool) → Mutation
  name_contact :
      (pn full_name first_name : Text) → (lid : Option Text) → (save_on_phone : Bool) → Mutation

-- The client: whether it is there and logged in, its JIDs and twins, and `SendAppState`, which says
-- whether there was no error.
pub record StateClient : Type 0 where
  pub ready : Bool
  pub jids : Sender
  pub send_app_state : List Mutation → Bool

pub data StateError : Type 0 where
  method_not_allowed : StateError
  not_connected : StateError
  invalid_json : StateError
  nothing_asked : StateError
  hours_negative : StateError
  invalid_chat : Text → StateError
  invalid_target : ℕ → StateError
  invalid_sender : ℕ → StateError
  name_required : StateError
  invalid_jid : Text → StateError
  no_phone_number : StateError

-- `http.Error` with its status, the JSON that says whether the patch was taken.
pub data StateReply : Type 0 where
  refused : (status : ℕ) → StateError → StateReply
  answered : (success : Bool) → StateReply

-- The patches sent, and the reply.
pub record Patched : Type 0 where
  pub patches : List (List Mutation)
  pub reply : StateReply

abbrev pub refuse : ℕ → StateError → Patched
refuse status e = record { patches = []; reply = refused status e }

abbrev pub send_patch : StateClient → List Mutation → Patched
send_patch client patch = record {
  patches = patch ∷ [];
  reply = answered (client.send_app_state patch);
}
