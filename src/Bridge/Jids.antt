-- ===== src/Bridge/Jids.antt =====
-- `jidDe` of whatsapp-bridge/grupos.go, and the two sides of a chat as whatsapp-bridge/mcp.go reads
-- them: the phone number and the hidden user.
use whatsmcp.Base.{
  ℕ, Bool, ◌&&◌, Option, none, some, List, [], ◌∷◌, map, Text, codes, is_empty, trim_space,
  contains_rune, cut, leb, if◌then◌else◌,
}
use whatsmcp.Bridge.Events.{WaJid}

-- What the code asks whatsmeow about JIDs; `none` is an error. `alt_jid` is `GetAltJID`.
pub record JidMap : Type 0 where
  pub parse_jid : Text → Option WaJid
  pub jid_string : WaJid → Text
  pub to_non_ad : WaJid → WaJid
  pub alt_jid : WaJid → Option WaJid

abbrev pub user_server : Text
user_server = codes "s.whatsapp.net"

abbrev pub hidden_server : Text
hidden_server = codes "lid"

abbrev pub is_digit_rune : ℕ → Bool
is_digit_rune r = leb b'0' r && leb r b'9'

unfoldable pub keep_digits : Text → Text
keep_digits [] = []
keep_digits (r ∷ s) = let rest = keep_digits s in if is_digit_rune r then r ∷ rest else rest

-- `IsEmpty`: of `types.JID`, the server decides.
abbrev pub is_empty_jid : WaJid → Bool
is_empty_jid j = is_empty j.server

module _ (jids : JidMap) where
  -- A number, which keeps its digits, or a JID; `none` is an error.
  unfoldable pub jid_de : Text → Option WaJid
  unfolding trim_space contains_rune keep_digits
  jid_de raw =
      let trimmed = trim_space raw in
      let digits = keep_digits trimmed in
      if is_empty trimmed
      then none
      else if contains_rune b'@' trimmed
      then jids.parse_jid trimmed
      else if is_empty digits
      then none
      else some (record { user = digits; server = user_server })

  abbrev pub with_alt : WaJid → Option WaJid → List Text
  with_alt j none = jids.jid_string j ∷ []
  with_alt j (some alt) =
      if is_empty_jid alt
      then jids.jid_string j ∷ []
      else jids.jid_string j ∷ jids.jid_string (jids.to_non_ad alt) ∷ []

  abbrev pub sides_of : Text → Option WaJid → List Text
  sides_of raw none = raw ∷ []
  sides_of raw (some j) = with_alt (jids.to_non_ad j) (jids.alt_jid (jids.to_non_ad j))

  -- A chat's JID and its alternate; the raw text where it is no JID.
  unfoldable pub sides : Text → List Text
  unfolding jid_de
  sides raw = sides_of raw (jid_de raw)

  abbrev user_part : Text → Text
  user_part s = (cut b'@' s).0

  -- The user parts under which a contact sends.
  unfoldable pub senders : Text → List Text
  unfolding sides cut
  senders raw = map user_part (sides raw)
