-- ===== src/Tests/Links.antt =====
-- Runs of the connection loops of both programs, and of the audio analysis.
use whatsmcp.Base.{◌≡◌, ◌≢◌, ◌≤◌, refl, true, false, [], ◌∷◌, codes, length, map, All}
use whatsmcp.Bridge.Audio.{analyze_ogg_opus, no_result}
use whatsmcp.Bridge.Audio.Laws.{InRange, analyze_ogg_opus_ends, analyze_ogg_opus-InRange}
use whatsmcp.Bridge.Connection.{Wake, reconnect_loop}
use whatsmcp.Bridge.Connection.Laws.{InBounds, tried, is_offline, reconnect_loop_lem}
use whatsmcp.Wabridge.Session.{
  Session, connect, Reach, here, next, call, world, fresh, Attempt, connect_with_retry,
}
use whatsmcp.Wabridge.Session.Exclusive.{Reach-exclusive}
use whatsmcp.Wabridge.Session.Backoff.{connect_with_retry_returns}
use whatsmcp.Tests.{some_floats}

analyze_ogg_opus_ends_example : analyze_ogg_opus some_floats [] (codes "OggSx") ≢ no_result
analyze_ogg_opus_ends_example = analyze_ogg_opus_ends some_floats [] (codes "OggSx")

analyze_ogg_opus-InRange_example : InRange (analyze_ogg_opus some_floats (0 ∷ []) (codes "OggSx"))
analyze_ogg_opus-InRange_example = analyze_ogg_opus-InRange some_floats (0 ∷ []) (codes "OggSx")

abbrev offline : Wake
offline = record { client = true; logged_in = true; connected = false; succeeds = false }

reconnect_loop_lem_example :
    All InBounds (reconnect_loop (offline ∷ offline ∷ []))
    × (map tried (reconnect_loop (offline ∷ offline ∷ []))
        ≡ map is_offline (offline ∷ offline ∷ []))
reconnect_loop_lem_example = reconnect_loop_lem (offline ∷ offline ∷ [])

-- Two calls, the second behind a login.
abbrev linked : Session
linked = connect (record (connect fresh) { logged_in = true; connected = false })

linked_reached : Reach fresh linked
linked_reached = next (next (next here (call refl)) (world true false refl)) (call refl)

Reach-exclusive_example : (linked.loops ≤ 1) × (linked.pairings ≤ 1)
Reach-exclusive_example = Reach-exclusive linked linked_reached

-- A failure, and then a connection.
abbrev failure : Attempt
failure = record { logged_in = true; connected = false; succeeds = false; connected_after = false }

abbrev success : Attempt
success = record { logged_in = true; connected = false; succeeds = true; connected_after = true }

connect_with_retry_returns_example :
    ((connect_with_retry (failure ∷ success ∷ [])).returned ≡ true)
    × (length ((connect_with_retry (failure ∷ success ∷ [])).waits) ≡ 1)
    × All (λ w. (5 ≤ w) × (w ≤ 60)) ((connect_with_retry (failure ∷ success ∷ [])).waits)
connect_with_retry_returns_example = connect_with_retry_returns (failure ∷ success ∷ []) refl
