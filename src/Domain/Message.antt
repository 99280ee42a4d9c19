-- ===== src/Domain/Message.antt =====
-- wabridge/internal/core/domain/message.go and chat.go.
use whatsmcp.Base.{
  ℕ, Bool, not, ◌&&◌, Option, Result, ok, err, Text, is_empty, is_some, if◌then◌else◌,
}
use whatsmcp.Domain.Error.{DomainError, invalid_message, invalid_jid}
use whatsmcp.Domain.Jid.{Jid, is_zero}
use whatsmcp.Domain.Media.{Media}

pub record Message : Type 0 where
  pub id : Text
  pub chat : Jid
  pub sender : Jid
  pub content : Text
  pub timestamp : ℕ
  pub is_from_me : Bool
  pub media : Option Media

-- From the fields as given.
unfoldable pub new_message : Message → Result DomainError Message
unfolding is_zero
new_message m =
    if is_zero m.chat
    then err invalid_message
    else if is_empty m.content && not (is_some m.media)
    then err invalid_message
    else ok m

pub record Chat : Type 0 where
  pub jid : Jid
  pub name : Text
  pub last_message_time : ℕ

unfoldable pub new_chat : Jid → Text → ℕ → Result DomainError Chat
unfolding is_zero
new_chat jid name time =
    if is_zero jid
    then err invalid_jid
    else ok (record { jid = jid; name = name; last_message_time = time })
