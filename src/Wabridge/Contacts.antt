-- ===== src/Wabridge/Contacts.antt =====
-- Who stands behind a JID: the contact repository of persistence/sqlite/contact_repo.go on the tables
-- of whatsapp.db, and `Resolve` of features/contacts/resolver.go.
pub mod Laws
pub mod Hidden
use whatsmcp.Base.{
  Bool, Option, none, some, List, [], ◌∷◌, ◌++◌, Result, ok, err, Text, codes, is_empty, text_key,
  trim_space, if◌then◌else◌,
}
use whatsmcp.Sql.{Db, query, first, has_key}
use whatsmcp.Domain.Error.{DomainError, invalid_jid}
use whatsmcp.Domain.Jid.{Jid, server_pn, is_zero, is_lid, is_pn, to_string}
use whatsmcp.Domain.Identity.{Identity, new_identity, identify, display}

-- `whatsmeow_lid_map` and `whatsmeow_contacts`, the columns that are read; `none` is NULL.
pub record LidRow : Type 0 where
  pub lid : Text
  pub pn : Option Text

pub record ContactRow : Type 0 where
  pub their_jid : Text
  pub full_name : Option Text
  pub business_name : Option Text
  pub push_name : Option Text
  pub first_name : Option Text

pub record ContactTables : Type 0 where
  pub lid_map : List LidRow
  pub contacts : List ContactRow

-- The `String` of a `sql.NullString`.
abbrev pub string_of : Option Text → Text
string_of none = []
string_of (some s) = s

abbrev pub lid_key : LidRow → Text
lid_key r = r.lid

abbrev pub contact_key : ContactRow → Text
contact_key r = r.their_jid

-- An error and a missing row are the empty text.
abbrev pub phone_in : Option (Option LidRow) → Text
phone_in (some (some r)) = trim_space (string_of r.pn)
phone_in (some none) = []
phone_in none = []

unfoldable pub lid_to_phone : Text → Db ContactTables → Db ContactTables × Text
unfolding query first trim_space
lid_to_phone lid db =
    let (asked, row) = query (λ t. first (has_key lid_key lid) t.lid_map) db in
    (asked, phone_in row)

-- The first that is not blank.
unfoldable pub first_name_of : List (Option Text) → Text
unfolding trim_space
first_name_of [] = []
first_name_of (c ∷ cs) =
    let rest = first_name_of cs in
    let name = trim_space (string_of c) in if is_empty name then rest else name

abbrev pub names_of : ContactRow → List (Option Text)
names_of r = r.full_name ∷ r.business_name ∷ r.push_name ∷ r.first_name ∷ []

abbrev pub name_in : Option (Option ContactRow) → Text
name_in (some (some r)) = first_name_of (names_of r)
name_in (some none) = []
name_in none = []

unfoldable pub contact_name : Text → Db ContactTables → Db ContactTables × Text
unfolding query first first_name_of
contact_name their_jid db =
    let (asked, row) = query (λ t. first (has_key contact_key their_jid) t.contacts) db in
    (asked, name_in row)

-- The loop over the candidates, which asks no more once it has a name.
unfoldable pub first_known : List Text → Db ContactTables → Db ContactTables × Text
unfolding contact_name
first_known [] db = (db, [])
first_known (c ∷ cs) db =
    let (asked, name) = contact_name c db in
    let rest = first_known cs asked in if is_empty name then rest else (asked, name)

abbrev pub named :
    Jid → (phone : Text) → Db ContactTables × Text → Db ContactTables × Result DomainError Identity
named jid phone (asked, name) = (asked, new_identity jid name phone)

-- Behind the look-up of a hidden user's number.
abbrev pub identify_lid :
    Jid → Db ContactTables × Text → Db ContactTables × Result DomainError Identity
identify_lid jid (asked, pn) =
    if is_empty pn
    then named jid [] (first_known (to_string jid ∷ []) asked)
    else named jid pn (first_known ((pn ++ (b'@' ∷ server_pn)) ∷ to_string jid ∷ []) asked)

-- `Identify` of the repository.
unfoldable pub find_identity :
    Jid → Db ContactTables → Db ContactTables × Result DomainError Identity
unfolding is_zero is_lid is_pn to_string lid_to_phone first_known new_identity
find_identity jid db =
    if is_zero jid
    then (db, err invalid_jid)
    else if is_lid jid
    then identify_lid jid (lid_to_phone jid.user db)
    else if is_pn jid
    then named jid jid.user (first_known (to_string jid ∷ []) db)
    else named jid [] (first_known (to_string jid ∷ []) db)

-- `Resolve`.
unfoldable pub resolve : Jid → Db ContactTables → Db ContactTables × Text
unfolding find_identity identify display
resolve jid db = let (asked, found) = find_identity jid db in (asked, display (identify jid found))
