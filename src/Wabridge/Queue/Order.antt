-- ===== src/Wabridge/Queue/Order.antt =====
-- The queue is bounded, and what it takes is worked on in the order of arrival.
use whatsmcp.Base.{◌≤◌, List, [], ◌∷◌, ◌++◌, length, ltb, if◌then◌else◌}
use whatsmcp.Sql.{Db}
use whatsmcp.Wabridge.Repos.{WaTables}
use whatsmcp.Wabridge.Features.{WaBus}
use whatsmcp.Wabridge.Translate.{WaClient}
use whatsmcp.Wabridge.Queue.{
  RawEvent, Queued, queued, raw_label_edit, raw_label_association, raw_connected, raw_logged_out,
  Adapter, event_queue_size, handle_event, Turn, arrival, round, turn, work_on,
}

-- What a turn adds to the queue, and what it takes from it.
abbrev pub added : Turn → List Queued → List Queued
added (arrival (queued e)) q = if ltb (length q) event_queue_size then e ∷ [] else []
added (arrival (raw_label_edit id name color deleted)) q = []
added (arrival (raw_label_association id jid labeled)) q = []
added (arrival raw_connected) q = []
added (arrival raw_logged_out) q = []
added round q = []

abbrev first_of : List Queued → List Queued
first_of [] = []
first_of (e ∷ q) = e ∷ []

-- What a turn does to the database: the work on a queued event, or another event at once.
pub data Effect : Type 0 where
  worked : Queued → Effect
  at_once : RawEvent → Effect

abbrev works_of : List Queued → List Effect
works_of [] = []
works_of (e ∷ es) = worked e ∷ works_of es

abbrev pub works : List Effect → List Queued
works [] = []
works (worked e ∷ es) = e ∷ works es
works (at_once e ∷ es) = works es

abbrev pub done_by : Turn → List Queued → List Effect
done_by (arrival (queued e)) q = []
done_by (arrival (raw_label_edit id name color deleted)) q =
    at_once (raw_label_edit id name color deleted) ∷ []
done_by (arrival (raw_label_association id jid labeled)) q =
    at_once (raw_label_association id jid labeled) ∷ []
done_by (arrival raw_connected) q = at_once raw_connected ∷ []
done_by (arrival raw_logged_out) q = at_once raw_logged_out ∷ []
done_by round q = works_of (first_of q)

abbrev taken : Turn → List Queued → List Queued
taken (arrival e) q = []
taken round q = first_of q

module _ (client : WaClient) (bus : WaBus) where
  abbrev pub all_added : List Turn → Adapter → List Queued
  all_added [] a = []
  all_added (t ∷ ts) a = added t a.queue ++ all_added ts (turn client bus t a)

  abbrev all_taken : List Turn → Adapter → List Queued
  all_taken [] a = []
  all_taken (t ∷ ts) a = taken t a.queue ++ all_taken ts (turn client bus t a)

  -- What an effect makes of the database: the worker's work, or what is published at once.
  abbrev pub effect : Effect → Db WaTables → Db WaTables
  effect (worked e) db = work_on client bus e db
  effect (at_once e) db = (handle_event client bus e (record { queue = []; db = db })).db

  abbrev pub effects : List Effect → Db WaTables → Db WaTables
  effects [] db = db
  effects (e ∷ es) db = effects es (effect e db)

  -- The effects of the turns, in their order.
  abbrev pub all_done : List Turn → Adapter → List Effect
  all_done [] a = []
  all_done (t ∷ ts) a = done_by t a.queue ++ all_done ts (turn client bus t a)

  -- A queue within its capacity.
  abbrev pub IsBounded : Adapter → Type 0
  IsBounded a = length a.queue ≤ event_queue_size
