-- ===== src/Wabridge/Bus.antt =====
-- The event bus of wabridge/internal/core/eventbus/bus.go. A handler takes the state of the program to
-- the next one, and says whether it had no error.
pub mod Laws
use whatsmcp.Base.{
  ℕ, ◌+◌, Bool, true, false, Option, none, some, List, [], ◌∷◌, ◌++◌, Text, is_empty, text_eq,
  if◌then◌else◌,
}

module _ (E S : Type 0) (event_name : E → Text) where
  abbrev pub Handler : Type 0
  Handler = E → S → S × Bool

  -- The map from names to handlers, each list in the order of subscription.
  abbrev pub Bus : Type 0
  Bus = List (Text × List Handler)

  unfoldable pub handlers_of : Text → Bus → List Handler
  unfolding text_eq
  handlers_of name [] = []
  handlers_of name ((n, hs) ∷ bus) = if text_eq n name then hs else handlers_of name bus

  unfoldable pub add_handler : Text → Handler → Bus → Bus
  unfolding text_eq
  add_handler name h [] = (name, h ∷ []) ∷ []
  add_handler name h ((n, hs) ∷ bus) =
      let rest = add_handler name h bus in
      if text_eq n name then (n, hs ++ h ∷ []) ∷ bus else (n, hs) ∷ rest

  -- `none` is the panic.
  unfoldable pub subscribe : Text → Handler → Bus → Option Bus
  unfolding add_handler
  subscribe name h bus = if is_empty name then none else some (add_handler name h bus)

  -- The loop over the handlers; the second component counts the errors that are logged.
  unfoldable pub run_handlers : List Handler → E → S → S × ℕ
  run_handlers [] e s = (s, 0)
  run_handlers (h ∷ hs) e s =
      let (next, done) = h e s in
      let (last, errors) = run_handlers hs e next in (last, if done then errors else errors + 1)

  unfoldable pub publish : Bus → E → S → S × ℕ
  unfolding handlers_of run_handlers
  publish bus e = run_handlers (handlers_of (event_name e) bus) e
