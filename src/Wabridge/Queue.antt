-- ===== src/Wabridge/Queue.antt =====
-- The queue between the client's events and the bus: `handleEvent`, `enqueue` and `worker` of
-- platform/wa/events.go, on the channel that platform/wa/client.go makes. The state behind the bus is
-- the database.
pub mod Order
use whatsmcp.Base.{
  ℕ, Bool, true, false, Option, none, some, List, [], ◌∷◌, ◌++◌, Text, length, ltb, if◌then◌else◌,
}
use whatsmcp.Sql.{Db}
use whatsmcp.Bridge.Events.{WaJid, Conversation}
use whatsmcp.Wabridge.Repos.{WaTables}
use whatsmcp.Wabridge.Bus.{publish}
use whatsmcp.Wabridge.Features.{Event, session_connected, session_logged_out, event_name, WaBus}
use whatsmcp.Wabridge.Translate.{WaClient, Received, receive, sync_history, edit_label, label_chat}

-- What the worker takes from the channel.
pub data Queued : Type 0 where
  message_queued : Received → Queued
  history_queued : List Conversation → Queued

-- The events of the library that `handleEvent` knows.
pub data RawEvent : Type 0 where
  queued : Queued → RawEvent
  raw_label_edit : (id name : Text) → (color : ℕ) → (deleted : Bool) → RawEvent
  raw_label_association : (id : Text) → WaJid → (labeled : Bool) → RawEvent
  raw_connected : RawEvent
  raw_logged_out : RawEvent

pub record Adapter : Type 0 where
  pub queue : List Queued
  pub db : Db WaTables

abbrev pub event_queue_size : ℕ
event_queue_size = 4096

-- A full queue drops the event.
unfoldable pub enqueue : Queued → Adapter → Adapter
enqueue e a =
    if ltb (length a.queue) event_queue_size then record a { queue = a.queue ++ e ∷ [] } else a

module _ (client : WaClient) (bus : WaBus) where
  abbrev pub publish_to : Db WaTables × Option Event → Db WaTables
  publish_to (db, none) = db
  publish_to (db, some e) = (publish Event (Db WaTables) event_name bus e db).0

  abbrev pub published : Adapter → Option Event → Adapter
  published a e = record a { db = publish_to (a.db, e) }

  unfoldable pub handle_event : RawEvent → Adapter → Adapter
  unfolding enqueue edit_label label_chat publish
  handle_event (queued e) a = enqueue e a
  handle_event (raw_label_edit id name color deleted) a =
      published a (edit_label client id name color deleted)
  handle_event (raw_label_association id jid labeled) a =
      published a (label_chat client id jid labeled)
  handle_event raw_connected a = published a (some (session_connected client.account_user))
  handle_event raw_logged_out a = published a (some session_logged_out)

  abbrev pub with_event : Db WaTables × Event → Db WaTables × Option Event
  with_event (db, e) = (db, some e)

  -- What the worker does with one event.
  unfoldable pub work_on : Queued → Db WaTables → Db WaTables
  unfolding receive sync_history publish
  work_on (message_queued m) db = publish_to (receive client m db)
  work_on (history_queued cs) db = publish_to (with_event (sync_history client cs db))

  abbrev pub take_next : List Queued → Adapter → Adapter
  take_next [] a = a
  take_next (e ∷ es) a = record { queue = es; db = work_on e a.db }

  -- One round of the worker, which waits where the queue is empty.
  unfoldable pub worker_round : Adapter → Adapter
  unfolding work_on
  worker_round a = take_next a.queue a

-- The two goroutines take turns in any order.
pub data Turn : Type 0 where
  arrival : RawEvent → Turn
  round : Turn

module _ (client : WaClient) (bus : WaBus) where
  unfoldable pub turn : Turn → Adapter → Adapter
  unfolding handle_event worker_round
  turn (arrival e) a = handle_event client bus e a
  turn round a = worker_round client bus a

  unfoldable pub turns : List Turn → Adapter → Adapter
  unfolding turn
  turns [] a = a
  turns (t ∷ ts) a = turns ts (turn t a)
