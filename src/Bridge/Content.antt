-- ===== src/Bridge/Content.antt =====
-- `extractTextContent` of whatsapp-bridge/main.go: what is stored as the text of a message.
pub mod Laws
use whatsmcp.Base.{
  ℕ, Bool, Option, none, some, List, [], ◌∷◌, ◌++◌, Text, codes, is_empty, join, length, not, ◌==◌,
  if◌then◌else◌,
}
use whatsmcp.Bridge.Std.{Std}
use whatsmcp.Bridge.Decimal.{decimal}
use whatsmcp.Bridge.Proto.{
  MediaPart, DocumentPart, Location, LiveLocation, Contact, ContactsArray, EventMessage, Album,
  Order, Reaction, ProtocolMessage, Body, Message, body, Inner, nil, inner, Context, no_context,
  context,
}
use whatsmcp.Bridge.Unwrap.{unwrap_message}
use whatsmcp.Bridge.Vcard.{format_contact}
use whatsmcp.Bridge.Menu.{MenuOption, extract_menu_options, render_menu}

-- One arm of a chain `if x := …; x != nil { … } else …`.
abbrev pub when_set {ℓ} : {A : Type ℓ} → Option A → (A → Text) → Text → Text
when_set none f rest = rest
when_set (some a) f rest = f a

abbrev pub unless_empty : Text → Text → Text
unless_empty s shown = if is_empty s then [] else shown

abbrev pub or_empty : Option Text → Text
or_empty none = []
or_empty (some s) = s

abbrev pub document_text : DocumentPart → Text
document_text d = if is_empty d.media.caption then d.title else d.media.caption

abbrev pub location_text : Location → Text
location_text l =
    codes "[location] "
    ++ (l.latitude
        ++ (codes ", "
            ++ (l.longitude
                ++ (unless_empty l.name (codes " - " ++ l.name)
                    ++ unless_empty l.address (codes " (" ++ (l.address ++ codes ")"))))))

abbrev pub live_location_text : LiveLocation → Text
live_location_text l =
    codes "[live location] "
    ++ (l.latitude ++ (codes ", " ++ (l.longitude ++ (codes " " ++ l.caption))))

abbrev pub reaction_text : Reaction → Text
reaction_text r = codes "[reaction " ++ (r.text ++ (codes " to " ++ (or_empty r.key ++ codes "]")))

abbrev pub album_text : Album → Text
album_text a =
    codes "[album] "
    ++ (decimal a.image_count ++ (codes " images, " ++ (decimal a.video_count ++ codes " videos")))

abbrev pub order_text : Order → Text
order_text o =
    codes "[order] " ++ (o.title ++ (codes " (" ++ (decimal o.item_count ++ codes " items)")))

abbrev pub protocol_text : ProtocolMessage → Text
protocol_text p = if p.is_revoke then codes "[deleted message] " ++ or_empty p.key else []

module _ (lib : Std) where
  format_all : List Contact → List Text
  format_all [] = []
  format_all (c ∷ cs) = format_contact lib c.display_name c.vcard ∷ format_all cs

  abbrev pub contacts_text : ContactsArray → Text
  unfolding format_all
  contacts_text c =
      codes "["
      ++ (decimal (length c.contacts)
          ++ (codes " contacts] "
              ++ (c.display_name ++ (codes " | " ++ join (format_all c.contacts) (codes " ; ")))))

  abbrev pub event_text : EventMessage → Text
  event_text e =
      (if e.is_canceled then codes "[event CANCELLED] " else codes "[event] ")
      ++ (e.name
          ++ ((if e.start_time == 0 then [] else codes " starts " ++ lib.format_event e.start_time)
              ++ ((if e.end_time == 0 then [] else codes " ends " ++ lib.format_event e.end_time)
                  ++ (unless_empty e.location_name (codes " - " ++ e.location_name)
                      ++ unless_empty e.description (codes " | " ++ e.description)))))

  -- The types that carry no text of their own; the last arm falls through to the empty text.
  unfoldable pub replica_text : Body → Text
  replica_text b = when_set b.album album_text (
      when_set b.order order_text (
        if b.pin
        then codes "[pinned message]"
        else when_set b.sticker (λ _. codes "[sticker]")
            (when_set b.reaction reaction_text (
              when_set b.ptv (λ p. codes "[round video] " ++ p.caption)
                (when_set b.group_invite (λ name. codes "[group invite] " ++ name)
                  (if b.poll_update
                    then codes "[poll vote]"
                    else when_set b.protocol protocol_text []))))))

  -- Native events, and what follows them.
  unfoldable pub event_or_replica : Body → Text
  unfolding replica_text
  event_or_replica b =
      when_set b.event event_text
        (if b.event_invite then codes "[event invite]" else replica_text b)

  -- The menu, which is read from the unwrapped message, and what follows it.
  unfoldable pub menu_or_event : Inner → Body → Text
  unfolding event_or_replica
  menu_or_event msg b =
      let opts = extract_menu_options lib msg in
      if is_empty opts then event_or_replica b else render_menu msg opts

  -- The types that are not media and carry text.
  unfoldable pub native_text : Inner → Body → Text
  unfolding menu_or_event
  native_text msg b = when_set b.location location_text (
      when_set b.live_location live_location_text (
        when_set b.contact (λ c. format_contact lib c.display_name c.vcard)
          (when_set b.contacts_array contacts_text (
            when_set b.poll (λ name. codes "[poll] " ++ name)
              (when_set b.poll_v3 (λ name. codes "[poll] " ++ name)
                (when_set b.buttons_response (λ t. t)
                  (when_set b.list_response (λ t. t)
                    (when_set b.template_reply (λ t. t) (menu_or_event msg b)))))))))

  -- Captions of media.
  unfoldable pub caption_or_native : Inner → Body → Text
  unfolding native_text
  caption_or_native msg b =
      when_set b.image (λ m. m.caption)
        (when_set b.video (λ m. m.caption) (when_set b.document document_text (native_text msg b)))

  unfoldable pub body_text : Inner → Body → Text
  unfolding caption_or_native
  body_text msg b =
      if not (is_empty b.conversation)
      then b.conversation
      else when_set b.extended_text (λ t. t) (caption_or_native msg b)

  unfoldable pub text_of : Inner → Text
  unfolding body_text
  text_of nil = []
  text_of (inner m) = body_text (inner m) (body m)

  unfoldable pub extract_text_content : Inner → Text
  unfolding text_of
  extract_text_content msg = text_of (unwrap_message msg)

-- A sub-message's `ContextInfo`: nil on a nil sub-message.
abbrev pub context_of {ℓ} : {A : Type ℓ} → Option A → Context → Context
context_of none c = no_context
context_of (some _) c = c

abbrev pub or_context : Context → Context → Context
or_context no_context d = d
or_context (context id m) d = context id m

-- The `switch` of `extractQuoted`.
unfoldable pub quoting : Message → Context
quoting (Message.message _ _ _ _ _ _ extended image video audio document sticker b) =
    or_context (context_of b.extended_text extended) (
      or_context (context_of b.image image) (
        or_context (context_of b.video video) (
          or_context (context_of b.audio audio)
            (or_context (context_of b.document document) (context_of b.sticker sticker)))))

module _ (lib : Std) where
  abbrev quoted_of : Context → Text × Text
  quoted_of no_context = ([], [])
  quoted_of (context id m) = if is_empty id then ([], []) else (id, extract_text_content lib m)

  unfoldable pub quoted_in : Inner → Text × Text
  unfolding quoting
  quoted_in nil = ([], [])
  quoted_in (inner m) = quoted_of (quoting m)

  -- The ID and the text of the quoted message.
  unfoldable pub extract_quoted : Inner → Text × Text
  unfolding quoted_in
  extract_quoted msg = quoted_in (unwrap_message msg)
