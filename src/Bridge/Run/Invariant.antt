-- ===== src/Bridge/Run/Invariant.antt =====
-- The store of the running bridge, through events, work and requests in any order.
use whatsmcp.Base.{
  ℕ, ◌+◌, ◌≡◌, ◌≤◌, arith, true, Option, List, [], ◌∷◌, ◌++◌, Text, length, length-append, ltb,
  by_arms,
}
use whatsmcp.Sql.{Db}
use whatsmcp.Bridge.Std.{Std}
use whatsmcp.Bridge.Store.{
  Tables, put_label, put_label_chat, store_label, store_label_chat, bool_to_int,
}
use whatsmcp.Bridge.Store.Menus.{Wire}
use whatsmcp.Bridge.Store.Invariant.{
  WellFormed, exec-WellFormed, put_label-Keeps, put_label_chat-Keeps,
}
use whatsmcp.Bridge.Events.{Client}
use whatsmcp.Bridge.Events.Invariant.{handle_message-WellFormed}
use whatsmcp.Bridge.Events.Synced.{handle_history_sync-WellFormed}
use whatsmcp.Bridge.Rest.{Server}
use whatsmcp.Bridge.Rest.Serve.{serve}
use whatsmcp.Bridge.Rest.Serve.Safe.{serve-WellFormed}
use whatsmcp.Bridge.Run.{
  Pending, pending_message, pending_history, ClientEvent, to_worker, label_edit, label_association,
  state_event, queue_size, Running, enqueue_event, on_event, process, process_first, drain_one,
  Happening, client_event, worker_turn, http_request, happen, run_bridge,
}

-- The tables are well-formed, and the queue is within its capacity.
pub record IsSound (s : Running) : Type 0 where
  pub tables : WellFormed s.db.tables
  pub queue : length s.event_queue ≤ queue_size

with_db :
    (s : Running) (db : Db Tables)
    → IsSound s
    → WellFormed db.tables
    → IsSound (record s { db = db })
with_db s db h k = record { tables = k; queue = h.queue }

room_of_ltb : (n : ℕ) → ltb n queue_size ≡ true → n + 1 ≤ queue_size
room_of_ltb n k = ground arith

enqueue_event-IsSound : (e : Pending) (s : Running) → IsSound s → IsSound (enqueue_event e s)
unfolding enqueue_event
enqueue_event-IsSound e s h =
    by_arms IsSound (ltb (length s.event_queue) queue_size)
      (record s { event_queue = s.event_queue ++ e ∷ [] }) s
      (λ k. record {
        tables = h.tables;
        queue =
            omega
              (arith, length-append s.event_queue (e ∷ []), room_of_ltb (length s.event_queue) k);
      })
      (λ _. h)

on_event-IsSound :
    (client : Client) (e : ClientEvent) (s : Running) → IsSound s → IsSound (on_event client e s)
unfolding on_event store_label store_label_chat
on_event-IsSound client (to_worker e) s h = enqueue_event-IsSound e s h
on_event-IsSound client (label_edit id name color deleted) s h = with_db s _ h (
    exec-WellFormed
      (put_label
        (record { label_id = id; name = name; color = color; deleted = bool_to_int deleted }))
      s.db (put_label-Keeps _) h.tables)
on_event-IsSound client (label_association id jid labeled) s h = with_db s _ h (
    exec-WellFormed
      (put_label_chat
        (record { label_id = id; chat_jid = client.jid_string jid; labeled = bool_to_int labeled }))
      s.db (put_label_chat-Keeps _) h.tables)
on_event-IsSound client state_event s h = h

module _ (lib : Std) (wire : Wire) (client : Client) where
  process-WellFormed :
      (e : Pending) (db : Db Tables)
      → WellFormed db.tables
      → WellFormed ((process lib wire client e db).tables)
  unfolding process
  process-WellFormed (pending_message msg) db h = handle_message-WellFormed lib wire client msg db h
  process-WellFormed (pending_history cs) db h = handle_history_sync-WellFormed lib client cs db h

  process_first-IsSound :
      (q : List Pending) (s : Running)
      → IsSound s
      → length q ≤ queue_size
      → IsSound (process_first lib wire client q s)
  process_first-IsSound [] s h k = h
  process_first-IsSound (e ∷ es) s h k = record {
    tables = process-WellFormed e s.db h.tables;
    queue = omega arith;
  }

  module _ (split_host_port : Text → Option Text) (server : Server) where
    happen-IsSound :
        (e : Happening) (s : Running)
        → IsSound s
        → IsSound (happen lib wire client split_host_port server e s)
    unfolding happen drain_one serve
    happen-IsSound (client_event e) s h = on_event-IsSound client e s h
    happen-IsSound worker_turn s h = process_first-IsSound s.event_queue s h h.queue
    happen-IsSound (http_request r) s h =
        with_db s _ h (serve-WellFormed split_host_port server (r ∷ []) s.db h.tables)

    -- Whatever happens in the running bridge, in whatever order, events of the client, rounds of the
    -- worker and requests to the server, with any statements refused by the engine: no table gets two
    -- rows of one primary key, every message has the row of its chat, and the queue stays within its
    -- capacity.
    pub run_bridge-IsSound :
        (hs : List Happening) (s : Running)
        → IsSound s
        → IsSound (run_bridge lib wire client split_host_port server hs s)
    unfolding run_bridge
    run_bridge-IsSound [] s h = h
    run_bridge-IsSound (e ∷ hs) s h =
        run_bridge-IsSound hs (happen lib wire client split_host_port server e s)
          (happen-IsSound e s h)
