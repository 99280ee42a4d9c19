-- ===== src/Wabridge/Session/Backoff.antt =====
-- The retry loop returns as soon as a round allows it, and waits within its bounds.
use whatsmcp.Base.{
  ℕ, suc, ◌≤◌, ◌≡◌, refl, Bool, true, false, not, ◌||◌, List, [], ◌∷◌, All, length, arith,
  Bool-cases, inl, inr, if◌then◌else◌,
}
use whatsmcp.Wabridge.Session.{Attempt, next_backoff, retry_from, connect_with_retry}

-- The round lets the loop return.
abbrev pub ends_round : Attempt → Bool
ends_round a = not a.logged_in || a.connected || a.succeeds || a.connected_after

abbrev pub rounds_before : List Attempt → ℕ
rounds_before [] = 0
rounds_before (a ∷ rounds) = if ends_round a then 0 else suc (rounds_before rounds)

abbrev pub some_round_ends : List Attempt → Bool
some_round_ends [] = false
some_round_ends (a ∷ rounds) = ends_round a || some_round_ends rounds

retry_from_returned :
    (b : ℕ) (rounds : List Attempt) → (retry_from b rounds).returned ≡ some_round_ends rounds
unfolding retry_from
retry_from_returned b [] = refl
retry_from_returned b (a ∷ rounds) = ground (arith, retry_from_returned (next_backoff b) rounds)

length-waits :
    (b : ℕ) (rounds : List Attempt) → length ((retry_from b rounds).waits) ≡ rounds_before rounds
unfolding retry_from
length-waits b [] = refl
length-waits b (a ∷ rounds) = ground (arith, length-waits (next_backoff b) rounds)

next_backoff_bounds : (b : ℕ) → 5 ≤ b → b ≤ 60 → (5 ≤ next_backoff b) × (next_backoff b ≤ 60)
unfolding next_backoff
next_backoff_bounds b lo hi = ground arith

waits_bounds :
    (b : ℕ) (rounds : List Attempt)
    → 5 ≤ b
    → b ≤ 60
    → All (λ w. (5 ≤ w) × (w ≤ 60)) ((retry_from b rounds).waits)
unfolding retry_from
waits_bounds b [] lo hi = tt
waits_bounds b (a ∷ rounds) lo hi =
    let (lo', hi') = next_backoff_bounds b lo hi in
    elim (Bool-cases (ends_round a)) [
      | inl ends ↦ rw ends tt
      | inr again ↦ rw again ((lo, hi), waits_bounds (next_backoff b) rounds lo' hi')
    ]

-- The loop returns at the first round that finds the session gone or a connection, after one wait for
-- each round before it, each between five seconds and a minute: an outage of any length ends with at
-- most a minute's delay.
pub connect_with_retry_returns :
    (rounds : List Attempt)
    → some_round_ends rounds ≡ true
    → ((connect_with_retry rounds).returned ≡ true)
      × (length ((connect_with_retry rounds).waits) ≡ rounds_before rounds)
      × All (λ w. (5 ≤ w) × (w ≤ 60)) ((connect_with_retry rounds).waits)
unfolding connect_with_retry
connect_with_retry_returns rounds ends = (
  rw (retry_from_returned 5 rounds) ends,
  length-waits 5 rounds,
  waits_bounds 5 rounds (omega arith) (omega arith),
)
