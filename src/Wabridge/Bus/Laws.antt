-- ===== src/Wabridge/Bus/Laws.antt =====
-- What the bus delivers.
use whatsmcp.Base.{
  ◌≡◌, refl, some, List, [], ◌∷◌, ◌++◌, Text, text_eq, text_eq_iff, Bool-cases, inl, inr, arith,
  if◌then◌else◌,
}
use whatsmcp.Wabridge.Bus.{Handler, Bus, handlers_of, add_handler, subscribe, run_handlers, publish}

module _ {E S : Type 0} (event_name : E → Text) where
  handlers_of-add_handler :
      (name other : Text) (h : Handler E S event_name) (bus : Bus E S event_name)
      → handlers_of E S event_name other (add_handler E S event_name name h bus) ≡ (
          if text_eq name other
          then handlers_of E S event_name other bus ++ h ∷ []
          else handlers_of E S event_name other bus)
  unfolding handlers_of add_handler
  handlers_of-add_handler name other h [] = ground arith
  handlers_of-add_handler name other h ((n, hs) ∷ bus) = ground (
    arith,
    handlers_of-add_handler name other h bus,
    text_eq_iff n name,
    text_eq_iff n other,
    text_eq_iff name other,
  )

  run_handlers-append :
      (hs : List (Handler E S event_name)) (h : Handler E S event_name) (e : E) (s : S)
      → (run_handlers E S event_name (hs ++ h ∷ []) e s).0
        ≡ (h e ((run_handlers E S event_name hs e s).0)).0
  unfolding run_handlers
  run_handlers-append [] h e s = refl
  run_handlers-append (k ∷ hs) h e s = run_handlers-append hs h e ((k e s).0)

  publish-add_handler :
      (name : Text) (h : Handler E S event_name) (bus : Bus E S event_name) (e : E) (s : S)
      → (publish E S event_name (add_handler E S event_name name h bus) e s).0 ≡ (
          if text_eq name (event_name e)
          then (h e ((publish E S event_name bus e s).0)).0
          else (publish E S event_name bus e s).0)
  unfolding publish
  publish-add_handler name h bus e s =
      rw (handlers_of-add_handler name (event_name e) h bus)
        (elim (Bool-cases (text_eq name (event_name e))) [
          | inl hit ↦
              rw hit (run_handlers-append (handlers_of E S event_name (event_name e) bus) h e s)
          | inr miss ↦ rw miss refl
        ])

  -- A handler that is subscribed sees the events of its name and no others, each once, behind the
  -- handlers before it and on the state that they leave, whether or not they fail.
  pub publish-subscribe :
      (name : Text) (h : Handler E S event_name) (bus next : Bus E S event_name) (e : E) (s : S)
      → subscribe E S event_name name h bus ≡ some next
      → (publish E S event_name next e s).0 ≡ (
          if text_eq name (event_name e)
          then (h e ((publish E S event_name bus e s).0)).0
          else (publish E S event_name bus e s).0)
  unfolding subscribe
  publish-subscribe [] h bus next e s subscribed = cc
  publish-subscribe (c ∷ name) h bus next e s subscribed =
      let same : add_handler E S event_name (c ∷ name) h bus ≡ next = ground arith in
      rw (← same) (publish-add_handler (c ∷ name) h bus e s)
