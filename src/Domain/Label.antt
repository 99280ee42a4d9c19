-- ===== src/Domain/Label.antt =====
-- wabridge/internal/core/domain/label.go: a label, and its link to a chat.
use whatsmcp.Base.{ℕ, Bool, Result, ok, err, Text, is_empty, if◌then◌else◌}
use whatsmcp.Domain.Error.{DomainError, invalid_label, invalid_jid}
use whatsmcp.Domain.Jid.{Jid, is_zero}

pub record Label : Type 0 where
  pub id : Text
  pub name : Text
  pub color : ℕ
  pub deleted : Bool

unfoldable pub new_label : Text → Text → ℕ → Bool → Result DomainError Label
new_label id name color deleted =
    if is_empty id
    then err invalid_label
    else ok (record { id = id; name = name; color = color; deleted = deleted })

pub record LabelAssociation : Type 0 where
  pub label_id : Text
  pub chat : Jid
  pub labeled : Bool

unfoldable pub new_label_association : Text → Jid → Bool → Result DomainError LabelAssociation
unfolding is_zero
new_label_association label_id chat labeled =
    if is_empty label_id
    then err invalid_label
    else if is_zero chat
    then err invalid_jid
    else ok (record { label_id = label_id; chat = chat; labeled = labeled })
