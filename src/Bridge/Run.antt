-- ===== src/Bridge/Run.antt =====
-- The running bridge, `runBridge` of whatsapp-bridge/main.go: the handler of the client's events, the
-- queue with its worker, and the seven routes of startRESTServer beside them, on one store. The MCP
-- server and the routes of groups, mute, star and contact, on the same server, take no part.
pub mod Invariant
use whatsmcp.Base.{
  ℕ, Bool, Option, none, some, List, [], ◌∷◌, ◌++◌, Text, length, ltb, if◌then◌else◌,
}
use whatsmcp.Sql.{Db}
use whatsmcp.Bridge.Std.{Std}
use whatsmcp.Bridge.Store.{Tables, store_label, store_label_chat}
use whatsmcp.Bridge.Store.Menus.{Wire}
use whatsmcp.Bridge.Events.{
  WaJid, Client, MessageEvent, Conversation, handle_message, handle_history_sync,
}
use whatsmcp.Bridge.Rest.{Server}
use whatsmcp.Bridge.Rest.Serve.{Request, guard_local}

-- The events that wait for the worker.
pub data Pending : Type 0 where
  pending_message : MessageEvent → Pending
  pending_history : List Conversation → Pending

-- The cases of the handler; those that only log or show the state are one.
pub data ClientEvent : Type 0 where
  to_worker : Pending → ClientEvent
  label_edit : (id name : Text) → (color : ℕ) → (deleted : Bool) → ClientEvent
  label_association : (id : Text) → WaJid → (labeled : Bool) → ClientEvent
  state_event : ClientEvent

abbrev pub queue_size : ℕ
queue_size = 4096

-- What the goroutines share.
pub record Running : Type 0 where
  pub event_queue : List Pending
  pub db : Db Tables

-- The `select` with its `default`: a full queue drops the event.
unfoldable pub enqueue_event : Pending → Running → Running
enqueue_event e s =
    if ltb (length s.event_queue) queue_size
    then record s { event_queue = s.event_queue ++ e ∷ [] }
    else s

module _ (client : Client) where
  unfoldable pub on_event : ClientEvent → Running → Running
  unfolding enqueue_event store_label store_label_chat
  on_event (to_worker e) s = enqueue_event e s
  on_event (label_edit id name color deleted) s = record s {
    db = (store_label id name color deleted s.db).0;
  }
  on_event (label_association id jid labeled) s = record s {
    db = (store_label_chat id (client.jid_string jid) labeled s.db).0;
  }
  on_event state_event s = s

module _ (lib : Std) (wire : Wire) (client : Client) where
  unfoldable pub process : Pending → Db Tables → Db Tables
  unfolding handle_message handle_history_sync
  process (pending_message msg) db = handle_message lib wire client msg db
  process (pending_history cs) db = handle_history_sync lib client cs db

  abbrev pub process_first : List Pending → Running → Running
  process_first [] s = s
  process_first (e ∷ es) s = record { event_queue = es; db = process e s.db }

  -- One round of the loop over the queue.
  unfoldable pub drain_one : Running → Running
  unfolding process
  drain_one s = process_first s.event_queue s

-- What happens next: an event of the client, a round of the worker, or a request to one of the seven
-- routes of `startRESTServer`.
pub data Happening : Type 0 where
  client_event : ClientEvent → Happening
  worker_turn : Happening
  http_request : Request → Happening

module _ (lib : Std) (wire : Wire) (client : Client) (split_host_port : Text → Option Text)
    (server : Server) where
  unfoldable pub happen : Happening → Running → Running
  unfolding on_event drain_one guard_local
  happen (client_event e) s = on_event client e s
  happen worker_turn s = drain_one lib wire client s
  happen (http_request r) s = record s { db = (guard_local split_host_port server r s.db).0 }

  unfoldable pub run_bridge : List Happening → Running → Running
  unfolding happen
  run_bridge [] s = s
  run_bridge (h ∷ hs) s = run_bridge hs (happen h s)
