-- ===== src/Domain/Error.antt =====
-- The sentinel errors of the package domain, one for each `errors.New`.
pub data DomainError : Type 0 where
  invalid_jid invalid_message invalid_media invalid_label : DomainError
  media_not_found chat_name_unknown : DomainError
