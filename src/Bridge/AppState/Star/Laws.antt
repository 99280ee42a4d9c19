-- ===== src/Bridge/AppState/Star/Laws.antt =====
-- What a request to star sends.
use whatsmcp.Base.{
  ℕ, ◌+◌, ◌≡◌, ◌≤◌, refl, Bool, false, not, Option, none, some, List, [], ◌∷◌, is_empty, Result, ok,
  err, length, All, arith, by_arms,
}
use whatsmcp.Bridge.Events.{WaJid}
use whatsmcp.Bridge.AppState.{
  StateClient, StateError, Mutation, star_message, Patched, refuse, method_not_allowed,
  not_connected, nothing_asked, invalid_target,
}
use whatsmcp.Bridge.AppState.Star.{
  StarTarget, StarRequest, all_targets, is_starred, sender_of, star_from, star_in, star_one,
  then_rest, star_all, star_patch, star_body, handle_star,
}

module _ (client : StateClient) (starred : Bool) where
  -- The mutation stars the target: its chat and its sender are JIDs, and it has an ID.
  abbrev pub StarsOne : StarTarget → Mutation → Type 0
  StarsOne t m =
      (chat : WaJid) × (sender : WaJid) × (client.jids.parse_jid t.chat_jid ≡ some chat)
      × (sender_of client chat t.sender ≡ some sender)
      × (is_empty t.message_id ≡ false)
      × (m ≡ star_message chat sender t.message_id t.from_me starred)

  -- One mutation for each target, in their order.
  abbrev pub StarsAll : List StarTarget → List Mutation → Type 0
  StarsAll [] [] = Unit
  StarsAll [] (m ∷ ms) = ⊥
  StarsAll (t ∷ ts) [] = ⊥
  StarsAll (t ∷ ts) (m ∷ ms) = StarsOne t m × StarsAll ts ms

  abbrev GoodOne : StarTarget → Result StateError Mutation → Type 0
  GoodOne t (err e) = Unit
  GoodOne t (ok m) = StarsOne t m

  abbrev GoodAll : List StarTarget → Result StateError (List Mutation) → Type 0
  GoodAll ts (err e) = Unit
  GoodAll ts (ok ms) = StarsAll ts ms

  star_from-Good :
      (i : ℕ) (t : StarTarget) (chat : WaJid) (sender : Option WaJid)
      → client.jids.parse_jid t.chat_jid ≡ some chat
      → is_empty t.message_id ≡ false
      → sender_of client chat t.sender ≡ sender
      → GoodOne t (star_from client i starred t chat sender)
  star_from-Good i t chat none parsed has_id from = tt
  star_from-Good i t chat (some sender) parsed has_id from =
      (chat, sender, parsed, from, has_id, refl)

  star_in-Good :
      (i : ℕ) (t : StarTarget) (chat : Option WaJid)
      → client.jids.parse_jid t.chat_jid ≡ chat
      → GoodOne t (star_in client i starred t chat)
  star_in-Good i t none parsed = tt
  star_in-Good i t (some chat) parsed =
      by_arms (GoodOne t) (is_empty t.message_id) (err (invalid_target i)) _ (λ _. tt)
        (λ has_id. star_from-Good i t chat (sender_of client chat t.sender) parsed has_id refl)

  then_rest-Good :
      (t : StarTarget) (ts : List StarTarget) (one : Result StateError Mutation)
      (rest : Result StateError (List Mutation))
      → GoodOne t one
      → GoodAll ts rest
      → GoodAll (t ∷ ts) (then_rest client one rest)
  then_rest-Good t ts (err e) rest h hs = tt
  then_rest-Good t ts (ok m) (err e) h hs = tt
  then_rest-Good t ts (ok m) (ok ms) h hs = (h, hs)

  star_all-Good : (i : ℕ) (ts : List StarTarget) → GoodAll ts (star_all client i starred ts)
  unfolding star_all star_one
  star_all-Good i [] = tt
  star_all-Good i (t ∷ ts) =
      then_rest-Good t ts _ _ (star_in-Good i t (client.jids.parse_jid t.chat_jid) refl)
        (star_all-Good (i + 1) ts)

module _ (client : StateClient) where
  abbrev pub StarsOrNothing : StarRequest → Patched → Type 0
  StarsOrNothing r p =
      (length p.patches ≤ 1)
      × All (StarsAll client (is_starred r.starred) (all_targets r)) p.patches

  star_patch-StarsOrNothing :
      (r : StarRequest) (patch : Result StateError (List Mutation))
      → GoodAll client (is_starred r.starred) (all_targets r) patch
      → StarsOrNothing r (star_patch client patch)
  star_patch-StarsOrNothing r (err e) h = (omega arith, tt)
  star_patch-StarsOrNothing r (ok patch) h = (omega arith, (h, tt))

  -- A request to star sends one patch with a mutation for each message, in their order, or nothing: one
  -- message that is refused stops them all.
  pub handle_star-StarsOrNothing :
      (post : Bool) (r : StarRequest) → StarsOrNothing r (handle_star client post (some r))
  unfolding handle_star
  handle_star-StarsOrNothing post r =
      by_arms (StarsOrNothing r) (not post) (refuse 405 method_not_allowed) _
        (λ _. (omega arith, tt))
        (λ _.
          by_arms (StarsOrNothing r) (not client.ready) (refuse 503 not_connected)
            (star_body client (some r)) (λ _. (omega arith, tt))
            (λ _.
              by_arms (StarsOrNothing r) (is_empty (all_targets r)) (refuse 400 nothing_asked) _
                (λ _. (omega arith, tt))
                (λ _.
                  star_patch-StarsOrNothing r _
                    (star_all-Good client (is_starred r.starred) 0 (all_targets r)))))
