-- ===== src/Domain/Identity.antt =====
-- wabridge/internal/core/domain/identity.go, and the resolver of features/contacts/resolver.go.
use whatsmcp.Base.{
  not, ◌&&◌, ◌++◌, Result, ok, err, Text, codes, is_empty, trim_space, if◌then◌else◌,
}
use whatsmcp.Domain.Error.{DomainError, invalid_jid}
use whatsmcp.Domain.Jid.{Jid, is_zero, zero_jid}

pub record Identity : Type 0 where
  pub jid : Jid
  pub name : Text
  pub phone : Text

unfoldable pub new_identity : Jid → Text → Text → Result DomainError Identity
unfolding is_zero trim_space
new_identity jid name phone =
    if is_zero jid
    then err invalid_jid
    else ok (record { jid = jid; name = trim_space name; phone = trim_space phone })

-- Name and number, or what is known, or the user.
unfoldable pub display : Identity → Text
display i =
    if not (is_empty i.name) && not (is_empty i.phone)
    then i.name ++ (codes " (" ++ (i.phone ++ codes ")"))
    else if not (is_empty i.name)
    then i.name
    else if not (is_empty i.phone)
    then i.phone
    else i.jid.user

abbrev zero_identity : Identity
zero_identity = record { jid = zero_jid; name = codes ""; phone = codes "" }

abbrev or_zero : Result DomainError Identity → Identity
or_zero (ok i) = i
or_zero (err e) = zero_identity

-- `Resolver.Identify`, from the answer of the repository: an error falls back to the JID alone.
unfoldable pub identify : Jid → Result DomainError Identity → Identity
unfolding new_identity
identify jid (ok i) = i
identify jid (err e) = or_zero (new_identity jid (codes "") (codes ""))
