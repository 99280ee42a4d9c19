-- ===== src/Bridge/Mcp/Status.antt =====
-- `toolConnectionStatus` of whatsapp-bridge/mcp.go.
pub mod Newest
use whatsmcp.Base.{
  ℕ, ◌≡◌, refl, sym, ap, arith, Bool, true, false, not, ◌&&◌, ◌||◌, ◌==◌, Option, none, some, List,
  [], ◌∷◌, ◌++◌, Text, codes, ltb, All, Bool-cases, Option-cases, inl, inr, is_some, if◌then◌else◌,
  map,
}
use whatsmcp.Sql.{Db, query, next_fault}
use whatsmcp.Bridge.Store.{Tables, MessageRow}
use whatsmcp.Bridge.Mcp.{Engine, text_lt}

-- What `IsOnWhatsApp` gives for the own number, and after how many milliseconds: an error, or for each
-- result whether the number is there.
pub data Lookup : Type 0 where
  lookup_error : Text → Lookup
  lookup_result : List Bool → (elapsed : ℕ) → Lookup

pub data ServerState : Type 0 where
  not_asked : ServerState
  no_answer : Text → ServerState
  without_own_number : ServerState
  answered_in : (elapsed : ℕ) → ServerState

pub record ConnectionStatus : Type 0 where
  pub logged_in : Bool
  pub account : Option Text
  pub server : ServerState
  pub last_message_stored : Option Text

abbrev pub asked_state : Lookup → ServerState
asked_state (lookup_error e) = no_answer e
asked_state (lookup_result [] elapsed) = without_own_number
asked_state (lookup_result (is_in ∷ rest) elapsed) =
    if is_in then answered_in elapsed else without_own_number

abbrev pub server_state : Option Text → Lookup → ServerState
server_state none lookup = not_asked
server_state (some account) lookup = asked_state lookup

abbrev pub status_of : Option Text → Lookup → Option Text → ConnectionStatus
status_of account lookup last = record {
  logged_in = is_some account;
  account = account;
  server = server_state account lookup;
  last_message_stored = last;
}

abbrev pub or_null : Option (Option Text) → Option Text
or_null none = none
or_null (some o) = o

module _ (engine : Engine) where
  abbrev pub later_of : Text → Option Text → Text
  later_of time none = time
  later_of time (some m) = if text_lt m time then time else m

  -- `MAX(timestamp)`, which is of texts; `none` is NULL.
  unfoldable pub max_time : List MessageRow → Option Text
  unfolding text_lt
  max_time [] = none
  max_time (r ∷ rs) = some (later_of (engine.stored_time r.timestamp) (max_time rs))

  -- `account`: the JID of a client that is logged in.
  unfoldable pub connection_status :
      Option Text → Lookup → (is_open : Bool) → Db Tables → Db Tables × ConnectionStatus
  unfolding query max_time
  connection_status account lookup is_open db =
      let (asked, last) = query (λ t. max_time t.messages) db in
      if is_open
      then (asked, status_of account lookup (or_null last))
      else (db, status_of account lookup none)
