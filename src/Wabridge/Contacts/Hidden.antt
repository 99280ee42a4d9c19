-- ===== src/Wabridge/Contacts/Hidden.antt =====
-- A hidden user and the number behind it.
use whatsmcp.Base.{
  ◌≡◌, refl, sym, ap, ◌∙◌, true, false, Option, none, some, List, [], ◌∷◌, ◌++◌, Result, Text,
  is_empty, text_eq, text_eq_refl, then_arm, else_arm, text_key, trim_space, trim_space_idem,
}
use whatsmcp.Sql.{Db, query, first, has_key}
use whatsmcp.Domain.Error.{DomainError}
use whatsmcp.Domain.Jid.{Jid, server_pn, server_lid, is_zero, is_lid, is_pn, to_string}
use whatsmcp.Domain.Identity.{Identity, new_identity, identify, display}
use whatsmcp.Wabridge.Contacts.{
  LidRow, lid_key, string_of, phone_in, ContactTables, lid_to_phone, contact_name, first_known,
  named, identify_lid, find_identity, resolve,
}

-- The tables of an engine that refuses nothing.
abbrev pub sound : ContactTables → Db ContactTables
sound t = record { tables = t; faults = [] }

abbrev pub lid_of : Text → Jid
lid_of user = record { user = user; server = server_lid }

abbrev pub pn_of : Text → Jid
pn_of user = record { user = user; server = server_pn }

abbrev pub phone_of : Text → ContactTables → Text
phone_of user t = (lid_to_phone user (sound t)).1

abbrev pub name_of : Jid → ContactTables → Text
name_of jid t = (contact_name (to_string jid) (sound t)).1

is_zero_of_server :
    (u s : Text) → is_empty s ≡ false → is_zero (record { user = u; server = s }) ≡ false
unfolding is_zero
is_zero_of_server [] s h = h
is_zero_of_server (x ∷ u) s h = refl

phone_trimmed : (user : Text) (t : ContactTables) → trim_space (phone_of user t) ≡ phone_of user t
unfolding lid_to_phone query
phone_trimmed user t = by_row (first (has_key lid_key user) t.lid_map)
  where
    by_row : (r : Option LidRow) → trim_space (phone_in (some r)) ≡ phone_in (some r)
    by_row none = refl
    by_row (some r) = trim_space_idem (string_of r.pn)

first_known-named :
    (c : Text) (cs : List Text) (t : ContactTables)
    → is_empty ((contact_name c (sound t)).1) ≡ false
    → (first_known (c ∷ cs) (sound t)).1 ≡ (contact_name c (sound t)).1
unfolding first_known
first_known-named c cs t h = rw h refl

-- The name that is stored for a number.
abbrev number_name : Text → ContactTables → Text
number_name pn t = name_of (pn_of pn) t

to_string-pn_of : (pn : Text) → to_string (pn_of pn) ≡ pn ++ (b'@' ∷ server_pn)
unfolding to_string
to_string-pn_of pn = rw (is_zero_of_server pn server_pn refl) refl

is_lid-lid_of : (user : Text) → is_lid (lid_of user) ≡ true
unfolding is_lid
is_lid-lid_of user = text_eq_refl server_lid

is_lid-pn_of : (pn : Text) → is_lid (pn_of pn) ≡ false
unfolding is_lid text_eq
is_lid-pn_of pn = refl

is_pn-pn_of : (pn : Text) → is_pn (pn_of pn) ≡ true
unfolding is_pn
is_pn-pn_of pn = text_eq_refl server_pn

abbrev answer : Db ContactTables × Result DomainError Identity → Result DomainError Identity
answer r = r.1

module _ (user : Text) (t : ContactTables) where
  abbrev pn : Text
  pn = phone_of user t

  identify_lid-named :
      (jid : Jid)
      → is_empty pn ≡ false
      → is_empty (number_name pn t) ≡ false
      → (identify_lid jid (sound t, pn)).1 ≡ new_identity jid (number_name pn t) pn
  identify_lid-named jid has_pn has_name =
      let c : Text = pn ++ (b'@' ∷ server_pn) in
      let same : number_name pn t ≡ (contact_name c (sound t)).1 =
        ap (λ s. (contact_name s (sound t)).1) (to_string-pn_of pn) in
      rw has_pn (
        ap (λ n. new_identity jid n pn)
          (first_known-named c (to_string jid ∷ []) t (rw (sym same) has_name) ∙ sym same))

  find_identity-lid_of :
      is_empty pn ≡ false
      → is_empty (number_name pn t) ≡ false
      → (find_identity (lid_of user) (sound t)).1 ≡ new_identity (lid_of user) (number_name pn t) pn
  unfolding find_identity
  find_identity-lid_of has_pn has_name =
      else_arm answer (is_zero (lid_of user)) _ _ (is_zero_of_server user server_lid refl)
      ∙ then_arm answer (is_lid (lid_of user)) (identify_lid (lid_of user) (sound t, pn)) _
          (is_lid-lid_of user)
      ∙ identify_lid-named (lid_of user) has_pn has_name

  find_identity-pn_of :
      is_empty (number_name pn t) ≡ false
      → (find_identity (pn_of pn) (sound t)).1 ≡ new_identity (pn_of pn) (number_name pn t) pn
  unfolding find_identity
  find_identity-pn_of has_name =
      let own : Text = to_string (pn_of pn) in
      let known : Db ContactTables × Text = first_known (own ∷ []) (sound t) in
      else_arm answer (is_zero (pn_of pn)) _ _ (is_zero_of_server pn server_pn refl)
      ∙ else_arm answer (is_lid (pn_of pn)) _ _ (is_lid-pn_of pn)
      ∙ then_arm answer (is_pn (pn_of pn)) (named (pn_of pn) pn known) _ (is_pn-pn_of pn)
      ∙ ap (λ n. new_identity (pn_of pn) n pn) (first_known-named own [] t has_name)

-- With the number known, what is shown does not depend on the JID.
display-phone :
    (i j : Identity)
    → i.name ≡ j.name
    → i.phone ≡ j.phone
    → is_empty j.phone ≡ false
    → display i ≡ display j
unfolding display
display-phone i j names phones h = rw (names, phones, h) refl

-- Where the engine refuses nothing, a hidden user whose number is known, and who has a name under
-- that number, is shown as the number is.
pub resolve-lid_of :
    (user : Text) (t : ContactTables)
    → is_empty (phone_of user t) ≡ false
    → is_empty (number_name (phone_of user t) t) ≡ false
    → (resolve (lid_of user) (sound t)).1 ≡ (resolve (pn_of (phone_of user t)) (sound t)).1
unfolding resolve new_identity identify
resolve-lid_of user t has_pn has_name =
    let number : Text = phone_of user t in
    let name : Text = number_name number t in
    rw
      (
        find_identity-lid_of user t has_pn has_name,
        find_identity-pn_of user t has_name,
        is_zero_of_server user server_lid refl,
        is_zero_of_server number server_pn refl,
      )
      (display-phone
        (record { jid = lid_of user; name = trim_space name; phone = trim_space number })
        (record { jid = pn_of number; name = trim_space name; phone = trim_space number }) refl refl
        (rw (phone_trimmed user t) has_pn))
