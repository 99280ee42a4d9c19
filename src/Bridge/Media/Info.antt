-- ===== src/Bridge/Media/Info.antt =====
-- What `extractMediaInfo` and `extractDirectPath` say of one message.
use whatsmcp.Base.{ℕ, ◌≡◌, refl, [], Text, Option-cases, inl, inr}
use whatsmcp.Bridge.Std.{Std}
use whatsmcp.Bridge.Proto.{Body, body, Inner, nil, inner}
use whatsmcp.Bridge.Unwrap.{unwrap_message}
use whatsmcp.Bridge.Media.{
  body_media, media_of, extract_media_info, body_path, direct_path_of, extract_direct_path,
}

body_path_lem :
    (lib : Std) (base : Text) (b : Body)
    → (body_media lib base b).media_type ≡ []
    → body_path b ≡ []
unfolding body_media body_path
body_path_lem lib base b h = elim (Option-cases b.image) [
  | inr (m, has) ↦ absurd cc
  | inl no_image ↦ elim (Option-cases b.video) [
    | inr (m, has) ↦ absurd cc
    | inl no_video ↦ elim (Option-cases b.audio) [
      | inr (m, has) ↦ absurd cc
      | inl no_audio ↦ elim (Option-cases b.document) [
        | inr (m, has) ↦ absurd cc
        | inl no_document ↦ elim (Option-cases b.sticker) [
          | inr (m, has) ↦ absurd cc
          | inl no_sticker ↦ elim (Option-cases b.ptv) [
            | inr (m, has) ↦ absurd cc
            | inl no_ptv ↦ rw (no_image, no_video, no_audio, no_document, no_sticker, no_ptv) refl
          ]
        ]
      ]
    ]
  ]
]

of_inner :
    (lib : Std) (base : Text) (msg : Inner)
    → (media_of lib base msg).media_type ≡ []
    → direct_path_of msg ≡ []
unfolding media_of direct_path_of
of_inner lib base nil h = refl
of_inner lib base (inner m) h = body_path_lem lib base (body m) h

-- A message whose stored media type is empty has no direct path.
pub extract_media_info_path :
    (lib : Std) (msg : Inner) (stamp : ℕ) (id : Text)
    → (extract_media_info lib msg stamp id).media_type ≡ []
    → extract_direct_path msg ≡ []
unfolding extract_media_info extract_direct_path
extract_media_info_path lib msg stamp id h = of_inner lib _ (unwrap_message msg) h
