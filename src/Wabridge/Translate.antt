-- ===== src/Wabridge/Translate.antt =====
-- From the client's events to the events of the domain: translate.go, media.go and events.go of
-- wabridge/internal/platform/wa.
pub mod Laws
use whatsmcp.Base.{
  ℕ, Bool, true, false, not, ◌&&◌, ◌==◌, Option, none, some, List, [], ◌∷◌, ◌++◌, Result, ok, err,
  Text, codes, is_empty, is_some, text_eq, contains, if◌then◌else◌,
}
use whatsmcp.Sql.{Db}
use whatsmcp.Domain.Error.{DomainError}
use whatsmcp.Domain.Jid.{Jid, new_jid, parse_recipient, zero_jid, is_zero}
use whatsmcp.Domain.Media.{Media, new_media}
use whatsmcp.Domain.Message.{Message, Chat, new_message, new_chat}
use whatsmcp.Domain.Label.{Label, LabelAssociation, new_label, new_label_association}
use whatsmcp.Bridge.Proto.{Inner, nil, inner, body, Body, MediaPart, DocumentPart}
use whatsmcp.Bridge.Events.{
  WaJid, Names, conversation_name, deref, WebMessage, MessageKey, Conversation, message_id,
  key_from_me,
}
use whatsmcp.Wabridge.Repos.{WaTables, RepoError, find_name}
use whatsmcp.Wabridge.Features.{Event, message_received, history_synced, label_edited, chat_labeled}

-- The whatsmeow client: the account's own user, what it knows of a group and of a contact (`none` is
-- an error), and its JIDs. `now` is the present time as `20060102_150405`.
pub record WaClient : Type 0 where
  pub account_user : Text
  pub group_name : WaJid → Option Text
  pub full_name : WaJid → Option Text
  pub parse_jid : Text → Option WaJid
  pub jid_string : WaJid → Text
  pub to_non_ad : WaJid → WaJid
  pub now : Text

pub record Received : Type 0 where
  pub id : Text
  pub chat : WaJid
  pub sender : WaJid
  pub timestamp : ℕ
  pub is_from_me : Bool
  pub message : Inner

unfoldable pub extract_text : Inner → Text
extract_text nil = []
extract_text (inner m) =
    if is_empty (body m).conversation then deref (body m).extended_text else (body m).conversation

abbrev pub build_media : Text → Text → MediaPart → Option Media
build_media kind filename m = some (record {
  kind = kind;
  filename = filename;
  mimetype = [];
  url = m.url;
  direct_path = m.direct_path;
  media_key = m.media_key;
  file_sha256 = m.file_sha256;
  file_enc_sha256 = m.file_enc_sha256;
  file_length = m.file_length;
})

abbrev document_name : Text → Text → Text
document_name now name = if is_empty name then codes "document_" ++ now else name

abbrev of_document : Text → Option DocumentPart → Option Media
of_document now none = none
of_document now (some d) = build_media (codes "document") (document_name now d.file_name) d.media

abbrev of_audio : Text → Body → Option MediaPart → Option Media
of_audio now b none = of_document now b.document
of_audio now b (some m) = build_media (codes "audio") (codes "audio_" ++ (now ++ codes ".ogg")) m

abbrev of_video : Text → Body → Option MediaPart → Option Media
of_video now b none = of_audio now b b.audio
of_video now b (some m) = build_media (codes "video") (codes "video_" ++ (now ++ codes ".mp4")) m

abbrev of_image : Text → Body → Option MediaPart → Option Media
of_image now b none = of_video now b b.video
of_image now b (some m) = build_media (codes "image") (codes "image_" ++ (now ++ codes ".jpg")) m

-- The kind is a literal, so that `NewMedia` never fails.
unfoldable pub extract_media : Text → Inner → Option Media
extract_media now nil = none
extract_media now (inner m) = of_image now (body m) (body m).image

abbrev or_jid : Result DomainError Jid → Jid → Jid
or_jid (ok j) fallback = j
or_jid (err e) fallback = fallback

abbrev known_name : Result RepoError Text → Text
known_name (ok name) = name
known_name (err e) = []

module _ (client : WaClient) where
  unfoldable pub wa_group_name : WaJid → Option Names → Text
  wa_group_name jid conversation =
      let name = conversation_name conversation in
      let group = deref (client.group_name jid) in
      if not (is_empty name)
      then name
      else if not (is_empty group)
      then group
      else codes "Group " ++ jid.user

  abbrev pub unknown_name : WaJid → Option Names → Text → Text
  unknown_name jid conversation sender =
      let contact = deref (client.full_name jid) in
      if text_eq jid.server (codes "g.us")
      then wa_group_name jid conversation
      else if not (is_empty contact)
      then contact
      else if not (is_empty sender)
      then sender
      else jid.user

  -- With the chat's JID parsed; the name that is stored goes first.
  unfoldable pub chat_name : WaJid → Jid → Option Names → Text → Db WaTables → Db WaTables × Text
  unfolding find_name wa_group_name text_eq
  chat_name jid dj conversation sender db =
      let (asked, known) = find_name dj db in
      let name = known_name known in
      (asked, if not (is_empty name) then name else unknown_name jid conversation sender)

  unfoldable pub sender_jid : WaJid → Jid → Jid
  unfolding new_jid
  sender_jid sender fallback =
      or_jid (new_jid (client.jid_string (client.to_non_ad sender))) fallback

  -- `NewMessageReceived`, behind the two constructors.
  abbrev pub and_chat : Result DomainError Message → Result DomainError Chat → Option Event
  and_chat (err e) c = none
  and_chat (ok m) (err e) = none
  and_chat (ok m) (ok c) = if is_zero m.chat then none else some (message_received m c)

  abbrev pub receive_in :
      Received → Result DomainError Jid → Db WaTables → Db WaTables × Option Event
  receive_in v (err e) db = (db, none)
  receive_in v (ok dj) db =
      let content = extract_text v.message in
      let media = extract_media client.now v.message in
      let (asked, name) = chat_name v.chat dj none v.sender.user db in
      if is_empty content && not (is_some media) then (db, none) else (
        asked,
        and_chat
            (new_message (record {
              id = v.id;
              chat = dj;
              sender = sender_jid v.sender dj;
              content = content;
              timestamp = v.timestamp;
              is_from_me = v.is_from_me;
              media = media;
            }))
            (new_chat dj name v.timestamp),
      )

  -- `onMessage`: the event that is published, if one is.
  unfoldable pub receive : Received → Db WaTables → Db WaTables × Option Event
  unfolding new_jid extract_text extract_media chat_name sender_jid new_message new_chat is_zero
  receive v db = receive_in v (new_jid (client.jid_string v.chat)) db

  abbrev history_raw : Bool → Text → WaJid → Text
  history_raw mine participant chat =
      if not mine && not (is_empty participant)
      then participant
      else if mine
      then client.account_user
      else chat.user

  abbrev non_ad : Text → Option WaJid → Text
  non_ad raw none = raw
  non_ad raw (some j) = client.jid_string (client.to_non_ad j)

  abbrev or_chat : WaJid → Result DomainError Jid → Jid
  or_chat chat (ok j) = j
  or_chat chat (err e) = or_jid (new_jid (client.jid_string (client.to_non_ad chat))) zero_jid

  unfoldable pub history_sender_jid : Bool → Text → WaJid → Jid
  unfolding parse_recipient new_jid contains
  history_sender_jid mine participant chat =
      let raw = history_raw mine participant chat in
      or_chat chat (
        parse_recipient
          (if contains raw (codes "@") then non_ad raw (client.parse_jid raw) else raw))

  abbrev key_participant : Option MessageKey → Text
  key_participant none = []
  key_participant (some k) = deref k.participant

  abbrev pub translate_one : WaJid → Jid → Option WebMessage → Option Message
  translate_one jid dj none = none
  translate_one jid dj (some w) =
      let content = extract_text w.message in
      let media = extract_media client.now w.message in
      if is_empty content && not (is_some media)
      then none
      else if w.timestamp == 0
      then none
      else elim (new_message (record {
        id = message_id w.key;
        chat = dj;
        sender = history_sender_jid (key_from_me w.key) (key_participant w.key) jid;
        content = content;
        timestamp = w.timestamp;
        is_from_me = key_from_me w.key;
        media = media;
      })) [ ok m ↦ some m | err e ↦ none ]

  abbrev add_some {ℓ} : {A : Type ℓ} → Option A → List A → List A
  add_some none xs = xs
  add_some (some x) xs = x ∷ xs

  unfoldable pub translate_all : WaJid → Jid → List (Option WebMessage) → List Message
  unfolding extract_text extract_media history_sender_jid new_message
  translate_all jid dj [] = []
  translate_all jid dj (m ∷ ms) = add_some (translate_one jid dj m) (translate_all jid dj ms)

  -- The chat of a conversation: only if its first item is a message with a time.
  abbrev pub first_chat : Jid → Text → List (Option WebMessage) → List Chat
  first_chat dj name (some w ∷ ms) =
      if w.timestamp == 0
      then []
      else elim (new_chat dj name w.timestamp) [ ok c ↦ c ∷ [] | err e ↦ [] ]
  first_chat dj name _ = []

  abbrev pub names_of : Conversation → Names
  names_of c = (c.display_name, c.name)

  abbrev pub translate_in :
      Conversation
      → Option WaJid
      → Result DomainError Jid
      → Db WaTables
      → Db WaTables × (List Chat × List Message)
  translate_in c (some jid) (ok dj) db =
      let (asked, name) = chat_name jid dj (some (names_of c)) [] db in
      if is_empty c.messages
      then (db, ([], []))
      else (asked, (first_chat dj name c.messages, translate_all jid dj c.messages))
  translate_in c _ _ db = (db, ([], []))

  -- The chat and the messages of a conversation; none for one without an ID, or whose ID is no JID.
  unfoldable pub translate_conversation :
      Conversation → Db WaTables → Db WaTables × (List Chat × List Message)
  unfolding new_jid new_chat chat_name translate_all
  translate_conversation c db =
      let chat_jid = deref c.id in
      let translated = translate_in c (client.parse_jid chat_jid) (new_jid chat_jid) db in
      if is_empty chat_jid then (db, ([], [])) else translated

  unfoldable pub translate_conversations :
      List Conversation → Db WaTables → Db WaTables × (List Chat × List Message)
  unfolding translate_conversation
  translate_conversations [] db = (db, ([], []))
  translate_conversations (c ∷ cs) db =
      let (asked, (chats, msgs)) = translate_conversation c db in
      let (last, (more_chats, more_msgs)) = translate_conversations cs asked in
      (last, (chats ++ more_chats, msgs ++ more_msgs))

  -- `onHistorySync`: the event that is published.
  unfoldable pub sync_history : List Conversation → Db WaTables → Db WaTables × Event
  unfolding translate_conversations
  sync_history cs db =
      let (asked, (chats, msgs)) = translate_conversations cs db in
      (asked, history_synced chats msgs)

  abbrev label_event : Result DomainError Label → Option Event
  label_event (ok l) = some (label_edited l)
  label_event (err e) = none

  unfoldable pub edit_label : (id name : Text) → (color : ℕ) → (deleted : Bool) → Option Event
  unfolding new_label
  edit_label id name color deleted = label_event (new_label id name color deleted)

  abbrev link_event : Result DomainError LabelAssociation → Option Event
  link_event (ok a) = some (chat_labeled a)
  link_event (err e) = none

  abbrev associate : Text → Bool → Result DomainError Jid → Option Event
  associate id labeled (ok dj) = link_event (new_label_association id dj labeled)
  associate id labeled (err e) = none

  unfoldable pub label_chat : (id : Text) → WaJid → (labeled : Bool) → Option Event
  unfolding new_jid new_label_association
  label_chat id jid labeled = associate id labeled (new_jid (client.jid_string jid))
