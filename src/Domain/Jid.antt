-- ===== src/Domain/Jid.antt =====
-- wabridge/internal/core/domain/jid.go: the identifier `user@server`, its constructors and tests.
pub mod RoundTrip
pub mod Canonical
use whatsmcp.Base.{
  ℕ, suc, ◌≡◌, refl, Bool, ◌&&◌, ◌||◌, Option, none, some, ◌∷◌, ◌++◌, Result, ok, err, Text, codes,
  text_eq, is_empty, trim_space, contains_rune, last_index, length, take, drop, leb, ◌==◌,
  if◌then◌else◌,
}
use whatsmcp.Domain.Error.{DomainError, invalid_jid}

abbrev pub server_pn : Text
server_pn = codes "s.whatsapp.net"

abbrev pub server_lid : Text
server_lid = codes "lid"

abbrev pub server_group : Text
server_group = codes "g.us"

pub record Jid : Type 0 where
  pub user : Text
  pub server : Text

-- The zero value of the struct.
abbrev pub zero_jid : Jid
zero_jid = record { user = codes ""; server = codes "" }

-- The test on `at` and the two slices of `NewJID`; `none` is the index -1.
split_at : Text → Option ℕ → Result DomainError Jid
split_at raw none = err invalid_jid
split_at raw (some i) =
    if i == 0 || leb (length raw) (suc i)
    then err invalid_jid
    else ok (record { user = take i raw; server = drop (suc i) raw })

unfoldable pub new_jid : Text → Result DomainError Jid
unfolding split_at
new_jid raw = let trimmed = trim_space raw in split_at trimmed (last_index b'@' trimmed)

unfoldable pub new_jid_from_parts : Text → Text → Result DomainError Jid
new_jid_from_parts user server =
    let trimmed = trim_space user in
    if is_empty trimmed || is_empty server
    then err invalid_jid
    else ok (record { user = trimmed; server = server })

unfoldable pub parse_recipient : Text → Result DomainError Jid
parse_recipient raw =
    let trimmed = trim_space raw in
    if is_empty trimmed
    then err invalid_jid
    else if contains_rune b'@' trimmed
    then new_jid trimmed
    else ok (record { user = trimmed; server = server_pn })

unfoldable pub is_lid : Jid → Bool
is_lid j = text_eq j.server server_lid

unfoldable pub is_pn : Jid → Bool
is_pn j = text_eq j.server server_pn

unfoldable pub is_group : Jid → Bool
is_group j = text_eq j.server server_group

unfoldable pub is_zero : Jid → Bool
is_zero j = is_empty j.user && is_empty j.server

unfoldable pub to_string : Jid → Text
unfolding is_zero
to_string j = if is_zero j then codes "" else j.user ++ (b'@' ∷ j.server)

new_jid_tests :
    (new_jid (codes " 100@lid ") ≡ ok (record { user = codes "100"; server = codes "lid" }))
    × (new_jid (codes "semarroba") ≡ err invalid_jid)
    × (new_jid (codes "@semuser") ≡ err invalid_jid)
    × (new_jid (codes "semserver@") ≡ err invalid_jid)
    × (new_jid (codes "   ") ≡ err invalid_jid)
unfolding new_jid last_index trim_space
new_jid_tests = (refl, refl, refl, refl, refl)
