-- ===== src/Wabridge/Translate/Laws.antt =====
-- A received medium, from the client's event to the tables and back.
use whatsmcp.Base.{
  ◌≡◌, refl, ap, Bool, true, false, ◌&&◌, Option, none, some, [], Text, is_empty, ok, err,
  is_empty-eq-false, if◌then◌else◌,
}
use whatsmcp.Sql.{Db, query}
use whatsmcp.Domain.Jid.{Jid, new_jid, to_string, is_zero}
use whatsmcp.Domain.Jid.RoundTrip.{IsParsed, new_jid_sound}
use whatsmcp.Domain.Media.{Media}
use whatsmcp.Domain.Message.{Message, Chat, new_chat}
use whatsmcp.Bridge.Proto.{Inner, nil, inner, body, Body, MediaPart, DocumentPart}
use whatsmcp.Wabridge.Repos.{WaTables, find_media, find_name}
use whatsmcp.Wabridge.Repos.Found.{stored_media}
use whatsmcp.Wabridge.Features.{Event, message_received}
use whatsmcp.Wabridge.Features.Laws.{writing, published, published-find_media}
use whatsmcp.Wabridge.Translate.{
  WaClient, Received, extract_text, extract_media, of_document, of_audio, of_video, of_image,
  chat_name, sender_jid, receive, and_chat,
}
use whatsmcp.Domain.Error.{invalid_message}

-- Every medium that is read has a kind.
abbrev Kinded : Option Media → Type 0
Kinded none = Unit
Kinded (some m) = is_empty m.kind ≡ false

of_document-Kinded : (now : Text) (d : Option DocumentPart) → Kinded (of_document now d)
of_document-Kinded now none = tt
of_document-Kinded now (some d) = refl

of_audio-Kinded : (now : Text) (b : Body) (m : Option MediaPart) → Kinded (of_audio now b m)
of_audio-Kinded now b none = of_document-Kinded now b.document
of_audio-Kinded now b (some m) = refl

of_video-Kinded : (now : Text) (b : Body) (m : Option MediaPart) → Kinded (of_video now b m)
of_video-Kinded now b none = of_audio-Kinded now b b.audio
of_video-Kinded now b (some m) = refl

of_image-Kinded : (now : Text) (b : Body) (m : Option MediaPart) → Kinded (of_image now b m)
of_image-Kinded now b none = of_video-Kinded now b b.video
of_image-Kinded now b (some m) = refl

extract_media-Kinded : (now : Text) (msg : Inner) → Kinded (extract_media now msg)
unfolding extract_media
extract_media-Kinded now nil = tt
extract_media-Kinded now (inner m) = of_image-Kinded now (body m) (body m).image

-- The event is published, if there is one.
abbrev pub publish_some : Option Event → Db WaTables → Db WaTables
publish_some none db = db
publish_some (some e) db = published writing e db

abbrev pub arrive : WaClient → Received → Db WaTables → Db WaTables
arrive client v db = let (asked, e) = receive client v db in publish_some e asked

is_zero_parsed : (j : Jid) → IsParsed j → is_zero j ≡ false
unfolding is_zero
is_zero_parsed j p = rw (is_empty-eq-false j.user p.user) refl

and_false : (b : Bool) → (b && false) ≡ false
and_false true = refl
and_false false = refl

abbrev message_of : WaClient → Received → Media → Jid → Message
message_of client v m dj = record {
  id = v.id;
  chat = dj;
  sender = sender_jid client v.sender dj;
  content = extract_text v.message;
  timestamp = v.timestamp;
  is_from_me = v.is_from_me;
  media = some m;
}

abbrev named : WaClient → Received → Jid → Db WaTables → Db WaTables × Text
named client v dj db = chat_name client v.chat dj none v.sender.user db

abbrev chat_of : Received → Jid → Text → Chat
chat_of v dj name = record { jid = dj; name = name; last_message_time = v.timestamp }

and_chat_lem :
    (client : WaClient) (v : Received) (m : Media) (dj : Jid) (name : Text)
    → is_zero dj ≡ false
    → and_chat client
        (if is_zero dj then err invalid_message else ok (message_of client v m dj))
        (new_chat dj name v.timestamp)
      ≡ some (message_received (message_of client v m dj) (chat_of v dj name))
unfolding new_chat
and_chat_lem client v m dj name there = rw there (rw there refl)

receive_lem :
    (client : WaClient) (v : Received) (m : Media) (dj : Jid) (db : Db WaTables)
    → new_jid (client.jid_string v.chat) ≡ ok dj
    → extract_media client.now v.message ≡ some m
    → receive client v db ≡ (
      (named client v dj db).0,
      some (message_received (message_of client v m dj) (chat_of v dj ((named client v dj db).1))),
    )
unfolding receive
receive_lem client v m dj db parsed has =
    let (good, _) = new_jid_sound (client.jid_string v.chat) dj parsed in
    let asked : Db WaTables × Text = named client v dj db in
    rw (parsed, has, and_false (is_empty (extract_text v.message)))
      (ap (λ e. (asked.0, e)) (and_chat_lem client v m dj (asked.1) (is_zero_parsed dj good)))

named-faults :
    (client : WaClient) (v : Received) (dj : Jid) (db : Db WaTables)
    → db.faults ≡ []
    → (named client v dj db).0.faults ≡ []
unfolding chat_name find_name query
named-faults client v dj db h = rw h refl

-- A live message with a medium, in a chat whose JID parses, is translated, published on the bus and
-- stored, so that its medium is found under it, where the engine refuses no statement.
pub arrive-find_media :
    (client : WaClient) (v : Received) (m : Media) (dj : Jid) (db : Db WaTables)
    → db.faults ≡ []
    → new_jid (client.jid_string v.chat) ≡ ok dj
    → extract_media client.now v.message ≡ some m
    → (find_media v.id (to_string dj) (arrive client v db)).1 ≡ ok (stored_media m)
arrive-find_media client v m dj db healthy parsed has =
    let kind : is_empty m.kind ≡ false =
      (let k : Kinded (extract_media client.now v.message) =
          extract_media-Kinded client.now v.message in
        rw has at k) in
    rw (receive_lem client v m dj db parsed has) (
      published-find_media (message_of client v m dj) m (chat_of v dj ((named client v dj db).1))
        ((named client v dj db).0) (named-faults client v dj db healthy) refl kind refl)
