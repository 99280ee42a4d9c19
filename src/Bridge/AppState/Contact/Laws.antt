-- ===== src/Bridge/AppState/Contact/Laws.antt =====
-- Under what a contact is named.
use whatsmcp.Base.{
  ◌≡◌, ◌≢◌, refl, Bool, true, false, not, ◌||◌, Option, none, some, List, [], ◌∷◌, Text, is_empty,
  ne-nil_of_is_empty, text_eq, trim_space, All, arith, by_arms,
}
use whatsmcp.Bridge.Events.{WaJid}
use whatsmcp.Bridge.Jids.{is_empty_jid, hidden_server}
use whatsmcp.Bridge.Send.{chat_twins}
use whatsmcp.Bridge.AppState.{
  StateClient, Mutation, name_contact, Patched, refuse, method_not_allowed, not_connected,
  name_required, no_phone_number,
}
use whatsmcp.Bridge.AppState.Contact.{
  ContactRequest, saves, no_jid, split_twins, build_contact_name, contact_jid, first_name,
  name_twins, name_jid, contact_body, handle_contact_name,
}

-- The JID is absent, or it is no hidden user.
abbrev IsPhone : WaJid → Type 0
IsPhone j = (is_empty_jid j || not (text_eq j.server hidden_server)) ≡ true

split_twins-IsPhone :
    (xs : List WaJid) (pn lid : WaJid) → IsPhone pn → IsPhone ((split_twins xs (pn, lid)).0)
unfolding split_twins
split_twins-IsPhone [] pn lid h = h
split_twins-IsPhone (x ∷ xs) pn lid h =
    by_arms (λ (r : WaJid × WaJid). IsPhone (r.0)) (text_eq x.server hidden_server)
      (split_twins xs (pn, x)) (split_twins xs (x, lid)) (λ _. split_twins-IsPhone xs pn x h)
      (λ number. split_twins-IsPhone xs x lid (ground arith))

module _ (client : StateClient) where
  -- The mutation names a phone number, not a hidden user, and with the whole trimmed name.
  abbrev pub NamesPhone : ContactRequest → Mutation → Type 0
  NamesPhone r m =
      (pn : WaJid) × (lid : Option Text) × (is_empty pn.server ≡ false)
      × (text_eq pn.server hidden_server ≡ false)
      × (trim_space r.name ≢ [])
      × (m
          ≡ name_contact (client.jids.jid_string pn) (trim_space r.name)
              (first_name (trim_space r.name)) lid (saves r.save_on_phone))

  abbrev pub NamesPhones : ContactRequest → Patched → Type 0
  NamesPhones r p = All (All (NamesPhone r)) p.patches

  name_twins-NamesPhones :
      (r : ContactRequest) (pn lid : WaJid)
      → trim_space r.name ≢ []
      → IsPhone pn
      → NamesPhones r (name_twins client (trim_space r.name) (saves r.save_on_phone) (pn, lid))
  unfolding build_contact_name
  name_twins-NamesPhones r pn lid named h =
      by_arms (NamesPhones r) (is_empty_jid pn) (refuse 400 no_phone_number) _ (λ _. tt)
        (λ known. (((pn, _, known, ground arith, named, refl), tt), tt))

  name_jid-NamesPhones :
      (r : ContactRequest) (j : Option WaJid)
      → trim_space r.name ≢ []
      → NamesPhones r (name_jid client r.jid (trim_space r.name) (saves r.save_on_phone) j)
  name_jid-NamesPhones r none named = tt
  name_jid-NamesPhones r (some j) named =
      let twins : WaJid × WaJid = split_twins (chat_twins client.jids j) (no_jid, no_jid) in
      name_twins-NamesPhones r (twins.0) (twins.1) named
        (split_twins-IsPhone (chat_twins client.jids j) no_jid no_jid refl)

  -- A contact is named under a phone number, never under a hidden user, with its whole name trimmed and
  -- not empty.
  pub handle_contact_name-NamesPhones :
      (post : Bool) (r : ContactRequest) → NamesPhones r (handle_contact_name client post (some r))
  unfolding handle_contact_name
  handle_contact_name-NamesPhones post r =
      by_arms (NamesPhones r) (not post) (refuse 405 method_not_allowed) _ (λ _. tt)
        (λ _.
          by_arms (NamesPhones r) (not client.ready) (refuse 503 not_connected)
            (contact_body client (some r)) (λ _. tt)
            (λ _.
              by_arms (NamesPhones r) (is_empty r.jid || is_empty (trim_space r.name))
                (refuse 400 name_required) _ (λ _. tt)
                (λ given.
                  name_jid-NamesPhones r (contact_jid client r.jid)
                    (ne-nil_of_is_empty (trim_space r.name) (ground arith)))))
