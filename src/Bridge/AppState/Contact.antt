-- ===== src/Bridge/AppState/Contact.antt =====
-- Naming a contact: whatsapp-bridge/contact.go.
pub mod Laws
use whatsmcp.Base.{
  ℕ, Bool, true, false, not, ◌&&◌, ◌||◌, Option, none, some, List, [], ◌∷◌, Text, codes, is_empty,
  text_eq, trim_space, contains, cut, contains_rune, if◌then◌else◌,
}
use whatsmcp.Bridge.Events.{WaJid}
use whatsmcp.Bridge.Jids.{is_empty_jid, user_server, hidden_server}
use whatsmcp.Bridge.Send.{Sender, is_person_chat, chat_twins}
use whatsmcp.Bridge.AppState.{
  StateClient, method_not_allowed, not_connected, invalid_json, name_required, invalid_jid,
  no_phone_number, Mutation, name_contact, Patched, refuse, send_patch,
}

pub record ContactRequest : Type 0 where
  pub jid : Text
  pub name : Text
  pub save_on_phone : Option Bool

abbrev pub saves : Option Bool → Bool
saves none = true
saves (some b) = b

-- What stands before the first blank, if something does; else all of it.
unfoldable pub first_name : Text → Text
unfolding cut contains_rune
first_name full =
    let (before, behind) = cut b' ' full in
    if contains_rune b' ' full && not (is_empty before) then before else full

abbrev pub no_jid : WaJid
no_jid = record { user = []; server = [] }

-- The loop over the twins: the phone number and the hidden user, each the last one seen.
unfoldable pub split_twins : List WaJid → WaJid × WaJid → WaJid × WaJid
unfolding text_eq
split_twins [] (pn, lid) = (pn, lid)
split_twins (x ∷ xs) (pn, lid) =
    if text_eq x.server hidden_server then split_twins xs (pn, x) else split_twins xs (x, lid)

module _ (client : StateClient) where
  unfoldable pub build_contact_name : (pn lid : WaJid) → Text → Bool → List Mutation
  unfolding first_name
  build_contact_name pn lid full_name save =
      name_contact (client.jids.jid_string pn) full_name (first_name full_name)
        (if is_empty_jid lid then none else some (client.jids.jid_string lid)) save
      ∷ []

  abbrev person : Option WaJid → Option WaJid
  person none = none
  person (some j) = if is_person_chat j then some j else none

  -- A number, or the JID of a person; `none` is an error.
  unfoldable pub contact_jid : Text → Option WaJid
  unfolding contains text_eq
  contact_jid s =
      if contains s (codes "@")
      then person (client.jids.parse_jid s)
      else some (record { user = s; server = user_server })

  abbrev pub name_twins : Text → Bool → WaJid × WaJid → Patched
  name_twins name save (pn, lid) =
      if is_empty_jid pn
      then refuse 400 no_phone_number
      else send_patch client (build_contact_name pn lid name save)

  abbrev pub name_jid : Text → Text → Bool → Option WaJid → Patched
  name_jid shown name save none = refuse 400 (invalid_jid shown)
  name_jid shown name save (some j) =
      name_twins name save (split_twins (chat_twins client.jids j) (no_jid, no_jid))

  abbrev pub contact_body : Option ContactRequest → Patched
  contact_body none = refuse 400 invalid_json
  contact_body (some r) =
      let name = trim_space r.name in
      if is_empty r.jid || is_empty name
      then refuse 400 name_required
      else name_jid r.jid name (saves r.save_on_phone) (contact_jid r.jid)

  unfoldable pub handle_contact_name : (post : Bool) → Option ContactRequest → Patched
  unfolding contact_jid build_contact_name split_twins chat_twins trim_space
  handle_contact_name post body =
      if not post
      then refuse 405 method_not_allowed
      else if not client.ready
      then refuse 503 not_connected
      else contact_body body
