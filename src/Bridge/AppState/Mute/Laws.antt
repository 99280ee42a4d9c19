-- ===== src/Bridge/AppState/Mute/Laws.antt =====
-- What a request to mute sends.
use whatsmcp.Base.{
  ℕ, ◌≡◌, ◌≤◌, refl, Bool, true, false, not, ◌||◌, Option, none, some, List, [], ◌∷◌, ◌++◌, Text,
  is_empty, is_some, text_eq_iff, Result, ok, err, length, All, arith, by_arms, Bool-cases, inl,
  inr, text_eq, map, ap, codes, ◌&&◌,
}
use whatsmcp.Bridge.Events.{WaJid}
use whatsmcp.Bridge.Send.{chat_twins, twin_of}
use whatsmcp.Bridge.AppState.{
  StateClient, Mutation, mute_chat, Patched, refuse, method_not_allowed, not_connected,
  nothing_asked,
}
use whatsmcp.Bridge.AppState.Mute.{
  MuteRequest, same_jid, is_seen, add_new, mute_chats, targets_of, duration_of, chats_at,
  parse_target, with_user, Hours, default_hours, negative_hours, hours_of, new_chat_mute, collect,
  chats_of, mute_collected, mute_for, mute_body, handle_mute, or_true,
}

-- No JID twice.
abbrev pub IsDistinct : List WaJid → Type 0
IsDistinct [] = Unit
IsDistinct (j ∷ js) = (is_seen js j ≡ false) × IsDistinct js

is_seen-append :
    (js ks : List WaJid) (x : WaJid) → is_seen (js ++ ks) x ≡ (is_seen js x || is_seen ks x)
is_seen-append [] ks x = refl
is_seen-append (j ∷ js) ks x = ground (arith, is_seen-append js ks x)

same_jid_comm : (j k : WaJid) → same_jid j k ≡ same_jid k j
same_jid_comm j k = ground (
  arith,
  text_eq_iff j.user k.user,
  text_eq_iff k.user j.user,
  text_eq_iff j.server k.server,
  text_eq_iff k.server j.server,
)

append-IsDistinct :
    (js : List WaJid) (x : WaJid) → IsDistinct js → is_seen js x ≡ false → IsDistinct (js ++ x ∷ [])
append-IsDistinct [] x h new = (refl, tt)
append-IsDistinct (j ∷ js) x (h, hs) new = (
  ground (arith, is_seen-append js (x ∷ []) j, same_jid_comm x j),
  append-IsDistinct js x hs (ground arith),
)

add_new-IsDistinct : (jids xs : List WaJid) → IsDistinct jids → IsDistinct (add_new jids xs)
unfolding add_new
add_new-IsDistinct jids [] h = h
add_new-IsDistinct jids (x ∷ xs) h = elim (Bool-cases (is_seen jids x)) [
  | inl known ↦ rw known (add_new-IsDistinct jids xs h)
  | inr new ↦ rw new (add_new-IsDistinct (jids ++ x ∷ []) xs (append-IsDistinct jids x h new))
]

same_jid_eq : (j k : WaJid) → same_jid j k ≡ true → j ≡ k
same_jid_eq j k h =
    let users : j.user ≡ k.user = (text_eq_iff j.user k.user).0 (ground arith) in
    let servers : j.server ≡ k.server = (text_eq_iff j.server k.server).0 (ground arith) in
    λ i. record { user = users i; server = servers i }

-- A JID that stands in the list is there under an equal one.
is_seen-same_jid :
    (jids : List WaJid) (x y : WaJid)
    → is_seen jids x ≡ true
    → same_jid x y ≡ true
    → is_seen jids y ≡ true
is_seen-same_jid jids x y seen same = rw (← same_jid_eq x y same) seen

is_seen-add_new :
    (jids xs : List WaJid) (y : WaJid)
    → is_seen (add_new jids xs) y ≡ (is_seen jids y || is_seen xs y)
unfolding add_new
is_seen-add_new jids [] y = ground arith
is_seen-add_new jids (x ∷ xs) y = elim (Bool-cases (is_seen jids x)) [
  | inl known ↦
      rw known (ground (arith, is_seen-add_new jids xs y, is_seen-same_jid jids x y known))
  | inr new ↦
      rw new (ground (arith, is_seen-add_new (jids ++ x ∷ []) xs y, is_seen-append jids (x ∷ []) y))
]

module _ (client : StateClient) where
  -- The JID is the chat, or that of the same person on the other server.
  abbrev pub is_twin : Option WaJid → WaJid → Bool
  is_twin none y = false
  is_twin (some t) y = not (is_empty t.server) && same_jid t y

  abbrev pub is_same_chat : WaJid → WaJid → Bool
  is_same_chat j y =
      same_jid j y
      || (not (is_empty j.user)
          && (text_eq j.server (codes "s.whatsapp.net") || text_eq j.server (codes "lid"))
          && is_twin (client.jids.twin j) y)

  abbrev pub is_parsed_as : Option WaJid → WaJid → Bool
  is_parsed_as none y = false
  is_parsed_as (some j) y = not (is_empty j.user) && is_same_chat j y

  -- One of the texts names the chat.
  abbrev pub is_asked : List Text → WaJid → Bool
  is_asked [] y = false
  is_asked (s ∷ ss) y = is_parsed_as (client.jids.parse_jid s) y || is_asked ss y

  -- The request names the chat, in its list or as its single chat.
  abbrev pub is_named : MuteRequest → WaJid → Bool
  is_named r y =
      is_asked r.chat_jids y
      || (not (is_empty r.chat_jid) && is_parsed_as (client.jids.parse_jid r.chat_jid) y)

  -- A counterpart that is the chat itself is seen already.
  own_twin :
      (j t y : WaJid)
      → (is_empty t.server || (text_eq t.user j.user && text_eq t.server j.server)) ≡ true
      → same_jid j y ≡ (same_jid j y || (not (is_empty t.server) && same_jid t y))
  own_twin j t y same = ground (
    arith,
    text_eq_iff t.user j.user,
    text_eq_iff t.server j.server,
    text_eq_iff j.user y.user,
    text_eq_iff j.server y.server,
    text_eq_iff t.user y.user,
    text_eq_iff t.server y.server,
  )

  twin_of-is_seen :
      (j y : WaJid) (t : Option WaJid)
      → is_seen (twin_of client.jids j t) y ≡ (same_jid j y || is_twin t y)
  twin_of-is_seen j y none = ground arith
  twin_of-is_seen j y (some t) =
      elim (Bool-cases
        (is_empty t.server || (text_eq t.user j.user && text_eq t.server j.server))) [
          | inl same ↦ rw same (ground (arith, own_twin j t y same))
          | inr other ↦ rw other (ground (arith, other))
        ]

  chats_of-is_seen : (j y : WaJid) → is_seen (chats_of client j) y ≡ is_same_chat j y
  unfolding chats_of chat_twins
  chats_of-is_seen j y = ground (arith, twin_of-is_seen j y (client.jids.twin j))

  chats_at-is_seen :
      (p : Option WaJid) (y : WaJid)
      → is_seen (chats_at client (with_user client p)) y ≡ is_parsed_as p y
  chats_at-is_seen none y = refl
  chats_at-is_seen (some j) y = ground (arith, chats_of-is_seen j y)

  is_asked-append :
      (ss ts : List Text) (y : WaJid) → is_asked (ss ++ ts) y ≡ (is_asked ss y || is_asked ts y)
  is_asked-append [] ts y = refl
  is_asked-append (s ∷ ss) ts y = ground (arith, is_asked-append ss ts y)

  targets_of-is_asked : (r : MuteRequest) (y : WaJid) → is_asked (targets_of r) y ≡ is_named r y
  targets_of-is_asked r y = ground (arith, is_asked-append r.chat_jids (r.chat_jid ∷ []) y)

  -- The chats of all targets, each once.
  abbrev pub Collected : List WaJid → List Text → Result Text (List WaJid) → Type 0
  Collected jids ss (err s) = Unit
  Collected jids ss (ok out) =
      IsDistinct out × ((y : WaJid) → is_seen out y ≡ (is_seen jids y || is_asked ss y))

  Collected-add_new :
      (jids xs : List WaJid) (s : Text) (ss : List Text) (r : Result Text (List WaJid))
      → xs ≡ chats_at client (parse_target client s)
      → Collected (add_new jids xs) ss r
      → Collected jids (s ∷ ss) r
  Collected-add_new jids xs s ss (err e) same h = tt
  Collected-add_new jids xs s ss (ok out) same (distinct, members) = (
    distinct,
    λ y. ground (
      arith,
      members y,
      is_seen-add_new jids xs y,
      ap (λ zs. is_seen zs y) same,
      chats_at-is_seen (client.jids.parse_jid s) y,
    ),
  )

  collect-Collected :
      (jids : List WaJid) (ss : List Text)
      → IsDistinct jids
      → Collected jids ss (collect client jids ss)
  unfolding collect
  collect-Collected jids [] h = (h, λ y. ground arith)
  collect-Collected jids (s ∷ ss) h =
      let xs : List WaJid = chats_at client (parse_target client s) in
      let rest : Result Text (List WaJid) = collect client (add_new jids xs) ss in
      by_arms (Collected jids (s ∷ ss)) (is_some (parse_target client s)) rest (err s)
        (λ _.
          Collected-add_new jids xs s ss rest refl
            (collect-Collected (add_new jids xs) ss (add_new-IsDistinct jids xs h)))
        (λ _. tt)

  -- A request that says nothing mutes.
  abbrev pub IsFlag : Option Bool → Bool → Type 0
  IsFlag none mute = mute ≡ true
  IsFlag (some b) mute = mute ≡ b

  -- Seven days are the default; a negative number is refused.
  abbrev pub IsDuration : Hours → ℕ → Type 0
  IsDuration default_hours d = d ≡ 604800000000000
  IsDuration negative_hours d = ⊥
  IsDuration (hours_of n) d = d ≡ n

  -- The patch mutes, once each, the chats that the request names and their counterparts, and no other.
  abbrev pub MutesAsked : MuteRequest → List Mutation → Type 0
  MutesAsked r patch =
      (jids : List WaJid) × (mute : Bool) × (d : ℕ) × (patch ≡ map (λ j. mute_chat j mute d) jids)
      × IsFlag r.mute mute
      × IsDuration r.hours d
      × IsDistinct jids
      × ((y : WaJid) → is_seen jids y ≡ is_named r y)

  abbrev pub OnePatch : MuteRequest → Patched → Type 0
  OnePatch r p = (length p.patches ≤ 1) × All (MutesAsked r) p.patches

  mute_chats-map :
      (jids : List WaJid) (mute : Bool) (d : ℕ)
      → mute_chats jids mute d ≡ map (λ j. mute_chat j mute d) jids
  unfolding mute_chats
  mute_chats-map [] mute d = refl
  mute_chats-map (j ∷ js) mute d = ap (λ t. mute_chat j mute d ∷ t) (mute_chats-map js mute d)

  or_true-IsFlag : (b : Option Bool) → IsFlag b (or_true b)
  or_true-IsFlag none = refl
  or_true-IsFlag (some b) = refl

  mute_collected-OnePatch :
      (r : MuteRequest) (d : ℕ) (c : Result Text (List WaJid))
      → IsDuration r.hours d
      → Collected [] (targets_of r) c
      → OnePatch r (mute_collected client (or_true r.mute) d c)
  mute_collected-OnePatch r d (err s) lasts h = (omega arith, tt)
  mute_collected-OnePatch r d (ok jids) lasts (distinct, members) = (
    omega arith,
    (
      (
        jids,
        or_true r.mute,
        d,
        mute_chats-map jids (or_true r.mute) d,
        or_true-IsFlag r.mute,
        lasts,
        distinct,
        λ y. ground (arith, members y, targets_of-is_asked r y),
      ),
      tt,
    ),
  )

  mute_for-OnePatch :
      (r : MuteRequest) (hours : Hours)
      → r.hours ≡ hours
      → OnePatch r (mute_for client r (duration_of hours))
  mute_for-OnePatch r negative_hours same = (omega arith, tt)
  mute_for-OnePatch r default_hours same =
      mute_collected-OnePatch r new_chat_mute (collect client [] (targets_of r)) (rw same refl)
        (collect-Collected [] (targets_of r) tt)
  mute_for-OnePatch r (hours_of d) same =
      mute_collected-OnePatch r d (collect client [] (targets_of r)) (rw same refl)
        (collect-Collected [] (targets_of r) tt)

  -- A request to mute sends at most one patch. It mutes or unmutes as the request says, and mutes where
  -- it says nothing, for the time of the request or seven days, once each, the chats of the list and
  -- the single chat, those of a person also under the JID of the other server, and no other chat.
  pub handle_mute-OnePatch :
      (post : Bool) (r : MuteRequest) → OnePatch r (handle_mute client post (some r))
  unfolding handle_mute
  handle_mute-OnePatch post r =
      by_arms (OnePatch r) (not post) (refuse 405 method_not_allowed) _ (λ _. (omega arith, tt))
        (λ _.
          by_arms (OnePatch r) (not client.ready) (refuse 503 not_connected)
            (mute_body client (some r)) (λ _. (omega arith, tt))
            (λ _.
              by_arms (OnePatch r) (is_empty (targets_of r)) (refuse 400 nothing_asked) _
                (λ _. (omega arith, tt)) (λ _. mute_for-OnePatch r r.hours refl)))
