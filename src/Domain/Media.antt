-- ===== src/Domain/Media.antt =====
-- wabridge/internal/core/domain/media.go: the metadata of a media item.
use whatsmcp.Base.{ℕ, Bool, not, ◌&&◌, ◌==◌, List, Result, ok, err, Text, is_empty, if◌then◌else◌}
use whatsmcp.Domain.Error.{DomainError, invalid_media}

-- `Media`, and the `MediaSpec` that it is built from, which has the same fields.
pub record Media : Type 0 where
  pub kind : Text
  pub filename : Text
  pub mimetype : Text
  pub url : Text
  pub direct_path : Text
  pub media_key : List ℕ
  pub file_sha256 : List ℕ
  pub file_enc_sha256 : List ℕ
  pub file_length : ℕ

unfoldable pub new_media : Media → Result DomainError Media
new_media s = if is_empty s.kind then err invalid_media else ok s

unfoldable pub is_downloadable : Media → Bool
is_downloadable m =
    not (is_empty m.url)
    && not (is_empty m.media_key)
    && not (is_empty m.file_sha256)
    && not (is_empty m.file_enc_sha256)
    && not (m.file_length == 0)
