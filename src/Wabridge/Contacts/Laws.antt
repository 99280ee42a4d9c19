-- ===== src/Wabridge/Contacts/Laws.antt =====
-- What is shown for a JID.
use whatsmcp.Base.{
  ◌≡◌, refl, false, [], ◌∷◌, ◌++◌, Result, err, Text, codes, is_empty, text_key, Bool-cases,
  by_arms, inl, inr,
}
use whatsmcp.Sql.{Db}
use whatsmcp.Domain.Error.{DomainError, invalid_jid}
use whatsmcp.Domain.Jid.{Jid, is_zero, is_lid, is_pn, to_string}
use whatsmcp.Domain.Identity.{Identity, new_identity, identify, display}
use whatsmcp.Wabridge.Contacts.{
  ContactTables, lid_to_phone, first_known, named, identify_lid, find_identity, resolve,
}

-- Where nothing else is known of a JID, its user is shown.
not_empty_append : (xs ys : Text) → is_empty xs ≡ false → is_empty (xs ++ ys) ≡ false
not_empty_append [] ys h = cc
not_empty_append (x ∷ xs) ys h = refl

display_shown : (i : Identity) → is_empty i.jid.user ≡ false → is_empty (display i) ≡ false
unfolding display
display_shown i h = elim (Bool-cases (is_empty i.name)) [
  | inl e ↦ elim (Bool-cases (is_empty i.phone)) [ inl k ↦ rw (e, k) h | inr k ↦ rw (e, k) k ]
  | inr e ↦ elim (Bool-cases (is_empty i.phone)) [
    | inl k ↦ rw (e, k) e
    | inr k ↦ rw (e, k) (not_empty_append i.name (codes " (" ++ (i.phone ++ codes ")")) e)
  ]
]

-- The identity is of the JID that was asked for.
abbrev IsOf : Jid → Result DomainError Identity → Type 0
IsOf jid found = (identify jid found).jid ≡ jid

module _ (jid : Jid) (known : is_zero jid ≡ false) where
  new_identity-IsOf : (name phone : Text) → IsOf jid (new_identity jid name phone)
  unfolding new_identity identify
  new_identity-IsOf name phone = rw known refl

  err-IsOf : (e : DomainError) → IsOf jid (err e)
  unfolding new_identity identify
  err-IsOf e = rw known refl

  identify_lid-IsOf : (found : Db ContactTables × Text) → IsOf jid ((identify_lid jid found).1)
  identify_lid-IsOf (asked, pn) = elim (Bool-cases (is_empty pn)) [
    | inl e ↦ rw e (new_identity-IsOf _ [])
    | inr e ↦ rw e (new_identity-IsOf _ pn)
  ]

  find_identity-IsOf : (db : Db ContactTables) → IsOf jid ((find_identity jid db).1)
  unfolding find_identity
  find_identity-IsOf db =
      let P : Db ContactTables × Result DomainError Identity → Type 0 = λ r. IsOf jid (r.1) in
      by_arms P (is_zero jid) (db, err invalid_jid) _ (λ _. err-IsOf invalid_jid)
        (λ _.
          by_arms P (is_lid jid) (identify_lid jid (lid_to_phone jid.user db)) _
            (λ _. identify_lid-IsOf (lid_to_phone jid.user db))
            (λ _.
              let asked : Db ContactTables × Text = first_known (to_string jid ∷ []) db in
              by_arms P (is_pn jid) (named jid jid.user asked) (named jid [] asked)
                (λ _. new_identity-IsOf (asked.1) jid.user) (λ _. new_identity-IsOf (asked.1) [])))

-- Whatever the tables hold and the engine refuses, something is shown for a JID that has a user.
pub resolve_shown :
    (jid : Jid) (db : Db ContactTables)
    → is_empty jid.user ≡ false
    → is_empty ((resolve jid db).1) ≡ false
unfolding resolve is_zero
resolve_shown jid db h =
    display_shown (identify jid ((find_identity jid db).1))
      (rw (find_identity-IsOf jid (rw h refl) db) h)
