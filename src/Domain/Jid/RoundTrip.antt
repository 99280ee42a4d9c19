-- ===== src/Domain/Jid/RoundTrip.antt =====
-- Parsing and printing a JID.
use whatsmcp.Base.{
  ◌≡◌, refl, sym, ◌∙◌, ◌≢◌, ◌⊎◌, inl, inr, true, false, Bool-cases, none, some, [], ◌∷◌, ◌++◌, ok,
  Text, is_empty, trim_space, trim_space_idem, contains_rune, contains_rune-append, last_index,
  last_index-eq-some, last_index-append, take-append, length, suc, Lacks, arith, length-append,
  take, is_empty-eq-false, take-ne-nil, drop-ne-nil, ◌<◌, ℕ, Option, drop-suc-append, length_pos,
  Lacks_of_contains_rune, ne-nil_of_is_empty, drop,
}
use whatsmcp.Domain.Jid.{
  Jid, split_at, new_jid, new_jid_from_parts, parse_recipient, to_string, server_pn,
}

-- What every parsed JID has: two non-empty parts, and no `@` in the server.
pub record IsParsed (j : Jid) : Type 0 where
  pub user : j.user ≢ []
  pub server : j.server ≢ []
  pub plain : Lacks b'@' j.server

append-not-empty : (u : Text) (c : ℕ) (v : Text) → is_empty (u ++ c ∷ v) ≡ false
append-not-empty [] c v = refl
append-not-empty (d ∷ u) c v = refl

pub to_string_of_IsParsed : (j : Jid) → IsParsed j → to_string j ≡ j.user ++ (b'@' ∷ j.server)
unfolding to_string
to_string_of_IsParsed j p = rw (is_empty-eq-false j.user p.user)

split_at_sound :
    (raw : Text) (o : Option ℕ) (j : Jid)
    → last_index b'@' raw ≡ o
    → split_at raw o ≡ ok j
    → IsParsed j × (j.user ++ (b'@' ∷ j.server) ≡ raw)
unfolding split_at
split_at_sound raw none j found h = cc
split_at_sound raw (some i) j found h =
    let inside : (0 < i) × (suc i < length raw) = ground arith in
    let j_lem : record { user = take i raw; server = drop (suc i) raw } ≡ j = ground arith in
    let (spells, plain) = last_index-eq-some b'@' raw i found in
    rw (← j_lem) (
      record {
        user = take-ne-nil i raw inside.0 (omega arith);
        server = drop-ne-nil (suc i) raw inside.1;
        plain = plain;
      },
      spells,
    )

-- A parsed JID has a non-empty user and a non-empty server without `@`, and prints as the trimmed
-- input.
pub new_jid_sound :
    (raw : Text) (j : Jid) → new_jid raw ≡ ok j → IsParsed j × (to_string j ≡ trim_space raw)
unfolding new_jid
new_jid_sound raw j h =
    let (parsed, spells) = split_at_sound (trim_space raw) _ j refl h in
    (parsed, to_string_of_IsParsed j parsed ∙ spells)

new_jid-append :
    (u v : Text)
    → u ≢ []
    → v ≢ []
    → Lacks b'@' v
    → trim_space (u ++ (b'@' ∷ v)) ≡ u ++ (b'@' ∷ v)
    → new_jid (u ++ (b'@' ∷ v)) ≡ ok (record { user = u; server = v })
unfolding new_jid split_at
new_jid-append u v hu hv plain trimmed =
    rw
      (
        trimmed,
        last_index-append b'@' u v plain,
        take-append u (b'@' ∷ v),
        drop-suc-append u b'@' v,
      )
      (ground (arith, length-append u (b'@' ∷ v), length_pos u hu, length_pos v hv))

-- Printing a JID that was parsed and parsing it again gives the same JID.
pub new_jid-to_string : (raw : Text) (j : Jid) → new_jid raw ≡ ok j → new_jid (to_string j) ≡ ok j
new_jid-to_string raw j h =
    let (p, spells) = new_jid_sound raw j h in
    let whole = to_string_of_IsParsed j p in
    let trimmed : trim_space (j.user ++ (b'@' ∷ j.server)) ≡ j.user ++ (b'@' ∷ j.server) =
      rw (sym whole ∙ spells) (trim_space_idem raw) in
    rw whole (new_jid-append j.user j.server p.user p.server p.plain trimmed)

-- A recipient of the API is a JID, or the number itself on the phone-number server; a JID that
-- prints as it was given, and both with non-empty parts.
pub parse_recipient_sound :
    (raw : Text) (j : Jid)
    → parse_recipient raw ≡ ok j
    → IsParsed j
      × ((to_string j ≡ trim_space raw)
          ⊎ (Lacks b'@' (trim_space raw) × (j.user ≡ trim_space raw) × (j.server ≡ server_pn)))
unfolding parse_recipient
parse_recipient_sound raw j h = elim (Bool-cases (is_empty (trim_space raw))) [
  | inl blank ↦ absurd (ground arith)
  | inr filled ↦ elim (Bool-cases (contains_rune b'@' (trim_space raw))) [
    | inl full ↦
        let (parsed, spells) = new_jid_sound (trim_space raw) j (ground arith) in
        (parsed, inl (spells ∙ trim_space_idem raw))
    | inr number ↦
        let same : record { user = trim_space raw; server = server_pn } ≡ j = ground arith in
        rw (← same) (
          record { user = ne-nil_of_is_empty _ filled; server = cc; plain = omega arith },
          inr (Lacks_of_contains_rune b'@' _ number, refl, refl),
        )
  ]
]

-- What `NewJID` accepts, the API takes too, as the same JID.
pub parse_recipient-new_jid :
    (raw : Text) (j : Jid) → new_jid raw ≡ ok j → parse_recipient (to_string j) ≡ ok j
unfolding parse_recipient
parse_recipient-new_jid raw j h =
    let (p, spells) = new_jid_sound raw j h in
    let whole = to_string_of_IsParsed j p in
    let trimmed : trim_space (to_string j) ≡ to_string j = rw spells (trim_space_idem raw) in
    let full : contains_rune b'@' (to_string j) ≡ true =
      rw whole (contains_rune-append b'@' j.user j.server) in
    let filled : is_empty (to_string j) ≡ false =
      rw whole (append-not-empty j.user b'@' j.server) in
    rw (trimmed, filled, full) (new_jid-to_string raw j h)

-- A JID made of parts has the trimmed user and the server as given, neither of them empty.
pub new_jid_from_parts_sound :
    (user server : Text) (j : Jid)
    → new_jid_from_parts user server ≡ ok j
    → (j.user ≡ trim_space user) × (j.server ≡ server) × (j.user ≢ []) × (j.server ≢ [])
unfolding new_jid_from_parts
new_jid_from_parts_sound user server j h =
    ground (arith, is_empty-eq-false (trim_space user), is_empty-eq-false server)
