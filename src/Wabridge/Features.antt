-- ===== src/Wabridge/Features.antt =====
-- The features of wabridge on its bus: core/domain/event.go, core/registry/registry.go and the
-- features messaging and labels. The state is the database.
pub mod Laws
use whatsmcp.Base.{
  Bool, true, false, not, ◌||◌, Option, none, some, List, [], ◌∷◌, Text, codes, is_empty,
  if◌then◌else◌,
}
use whatsmcp.Sql.{Db}
use whatsmcp.Domain.Error.{DomainError, invalid_jid}
use whatsmcp.Domain.Message.{Message, Chat}
use whatsmcp.Domain.Label.{Label, LabelAssociation}
use whatsmcp.Wabridge.Bus.{Handler, Bus, subscribe}
use whatsmcp.Wabridge.Repos.{WaTables, save, save_batch, upsert, save_label, save_association}

pub data Event : Type 0 where
  message_received : Message → Chat → Event
  history_synced : List Chat → List Message → Event
  label_edited : Label → Event
  chat_labeled : LabelAssociation → Event
  session_connected : (account : Text) → Event
  session_logged_out : Event
  qr_code_ready : (path : Text) → Event

-- `EventName`.
unfoldable pub event_name : Event → Text
event_name (message_received m c) = codes "messaging.message_received"
event_name (history_synced cs ms) = codes "messaging.history_synced"
event_name (label_edited l) = codes "labels.label_edited"
event_name (chat_labeled a) = codes "labels.chat_labeled"
event_name (session_connected account) = codes "session.connected"
event_name session_logged_out = codes "session.logged_out"
event_name (qr_code_ready path) = codes "session.qr_ready"

abbrev pub WaBus : Type 0
WaBus = Bus Event (Db WaTables) event_name

abbrev pub WaHandler : Type 0
WaHandler = Handler Event (Db WaTables) event_name

-- A handler passes over an event of another type.
unfoldable pub on_message : WaHandler
unfolding upsert save
on_message (message_received m c) db = save m ((upsert c db).0)
on_message _ db = (db, true)

unfoldable pub upsert_all : List Chat → Db WaTables → Db WaTables
unfolding upsert
upsert_all [] db = db
upsert_all (c ∷ cs) db = upsert_all cs ((upsert c db).0)

unfoldable pub on_history : WaHandler
unfolding upsert_all save_batch
on_history (history_synced cs ms) db = save_batch ms (upsert_all cs db)
on_history _ db = (db, true)

unfoldable pub on_label : WaHandler
unfolding save_label
on_label (label_edited l) db = save_label l db
on_label _ db = (db, true)

unfoldable pub on_chat_labeled : WaHandler
unfolding save_association
on_chat_labeled (chat_labeled a) db = save_association a db
on_chat_labeled _ db = (db, true)

-- `ports.Feature`: its registration is the bus behind it, or an error.
pub record Feature : Type 0 where
  pub name : Text
  pub register : WaBus → Option WaBus

abbrev pub and_subscribe : Text → WaHandler → Option WaBus → Option WaBus
and_subscribe name h none = none
and_subscribe name h (some bus) = subscribe Event (Db WaTables) event_name name h bus

-- The flags say whether the repositories are there.
unfoldable pub messaging : (messages chats : Bool) → Feature
unfolding subscribe on_message on_history
messaging messages chats = record {
  name = codes "messaging";
  register = λ bus.
      if not messages || not chats
      then none
      else and_subscribe (codes "messaging.history_synced") on_history
          (and_subscribe (codes "messaging.message_received") on_message (some bus));
}

unfoldable pub labels : Bool → Feature
unfolding subscribe on_label on_chat_labeled
labels present = record {
  name = codes "labels";
  register = λ bus.
      if not present
      then none
      else and_subscribe (codes "labels.chat_labeled") on_chat_labeled
          (and_subscribe (codes "labels.label_edited") on_label (some bus));
}

-- What `StartAll` ends with: the bus, or the feature that failed.
pub data Start : Type 0 where
  started : WaBus → Start
  failed_start : (feature : Text) → Start

abbrev pub start_next : Text → Option WaBus → (WaBus → Start) → Start
start_next name none rest = failed_start name
start_next name (some bus) rest = rest bus

unfoldable pub start_all : List Feature → WaBus → Start
start_all [] bus = started bus
start_all (f ∷ fs) bus = start_next f.name (f.register bus) (start_all fs)
