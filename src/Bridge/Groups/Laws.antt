-- ===== src/Bridge/Groups/Laws.antt =====
-- What a group request may ask of WhatsApp.
use whatsmcp.Base.{
  ◌≡◌, ◌≢◌, ◌≤◌, refl, Bool, false, not, ◌&&◌, Option, none, some, List, [], ◌∷◌, map, Text,
  is_empty, length, codes, ne-nil_of_is_empty, trim_space, All, arith, by_arms, if◌then◌else◌,
}
use whatsmcp.Bridge.Std.{Std}
use whatsmcp.Bridge.Events.{WaJid}
use whatsmcp.Bridge.Jids.{jid_de}
use whatsmcp.Bridge.Groups.{
  GroupClient, GroupCommand, create_group, joined_groups, group_info, update_participants,
  set_group_name, set_group_topic, is_on_whatsapp, GroupRequest, create_request, list_request,
  info_request, participants_request, edit_request, numbers_request, GroupAnswer, Reaction, Change,
  fails, too_long, ask, if_ready, jids_of, and_jid, create_with, group_create, list_groups, info_of,
  group_detail, update_in, update_by, action_of, group_participants, then_edit, edit_topic, edit_in,
  group_edit, on_whatsapp, handle_body, handle_group, reads_only, use_post, invalid_json,
  bridge_offline, name_required, name_too_long, participants_required, phones_required,
}

-- A name is not empty where a group is created and has at most 25 characters, and a command that names
-- participants or numbers names some.
abbrev pub IsValid : GroupCommand → Type 0
IsValid (create_group name js) = (name ≢ []) × (length name ≤ 25) × (js ≢ [])
IsValid joined_groups = Unit
IsValid (group_info j) = Unit
IsValid (update_participants g js change) = js ≢ []
IsValid (set_group_name g name) = length name ≤ 25
IsValid (set_group_topic g topic) = Unit
IsValid (is_on_whatsapp phones) = phones ≢ []

-- Every command is valid, and a client that is not ready gets none.
abbrev pub Guarded : Bool → Reaction → Type 0
Guarded ready r = All IsValid r.commands × (ready ≡ false → r.commands ≡ [])

-- Every command is valid.
abbrev Sound : Reaction → Type 0
Sound r = All IsValid r.commands

module _ (client : GroupClient) where
  if_ready-Guarded : (r : Reaction) → Sound r → Guarded client.ready (if_ready client r)
  if_ready-Guarded r h =
      by_arms (Guarded client.ready) client.ready r (fails 503 bridge_offline)
        (λ ready. (h, λ off. absurd cc)) (λ _. (tt, λ _. refl))

  and_jid_ne :
      (j : Option WaJid) (rest : Option (List WaJid)) (js : List WaJid)
      → and_jid client j rest ≡ some js
      → js ≢ []
  and_jid_ne none rest js e = cc
  and_jid_ne (some j) none js e = cc
  and_jid_ne (some j) (some rest) js e = λ empty. cc

  jids_of_ne :
      (ps : List Text) (js : List WaJid)
      → is_empty ps ≡ false
      → jids_of client ps ≡ some js
      → js ≢ []
  unfolding jids_of
  jids_of_ne [] js h e = cc
  jids_of_ne (p ∷ ps) js h e = and_jid_ne (jid_de client.jids p) (jids_of client ps) js e

  create_with-Sound :
      (name : Text) (js : Option (List WaJid))
      → name ≢ []
      → length name ≤ 25
      → ((l : List WaJid) → js ≡ some l → l ≢ [])
      → Sound (create_with client name js)
  create_with-Sound name none has short some_js = tt
  create_with-Sound name (some js) has short some_js = ((has, short, some_js js refl), tt)

  group_create-Guarded :
      (raw : Text) (participants : List Text)
      → Guarded client.ready (group_create client raw participants)
  unfolding group_create
  group_create-Guarded raw participants =
      let name : Text = trim_space raw in
      let made : Reaction =
        if_ready client (create_with client name (jids_of client participants)) in
      let peopled : Reaction =
        if is_empty participants then fails 400 participants_required else made in
      let fitting : Reaction =
        if too_long name then fails 400 (name_too_long (length name)) else peopled in
      by_arms (Guarded client.ready) (is_empty name) (fails 400 name_required) fitting
        (λ _. (tt, λ _. refl))
        (λ named.
          by_arms (Guarded client.ready) (too_long name) (fails 400 (name_too_long (length name)))
            peopled (λ _. (tt, λ _. refl))
            (λ short.
              by_arms (Guarded client.ready) (is_empty participants)
                (fails 400 participants_required) made (λ _. (tt, λ _. refl))
                (λ peopled.
                  if_ready-Guarded (create_with client name (jids_of client participants)) (
                    create_with-Sound name (jids_of client participants)
                      (ne-nil_of_is_empty name named) (ground arith)
                      (λ l e. jids_of_ne participants l peopled e)))))

  info_of-Sound : (j : Option WaJid) → Sound (info_of client j)
  info_of-Sound none = tt
  info_of-Sound (some j) = (tt, tt)

  update_in-Sound :
      (group : Option WaJid) (js : Option (List WaJid)) (change : Change)
      → ((l : List WaJid) → js ≡ some l → l ≢ [])
      → Sound (update_in client group js change)
  update_in-Sound none js change some_js = tt
  update_in-Sound (some group) none change some_js = tt
  update_in-Sound (some group) (some js) change some_js = (some_js js refl, tt)

  update_by-Guarded :
      (change : Option Change) (jid : Text) (participants : List Text)
      → Guarded client.ready (update_by client change jid participants)
  update_by-Guarded none jid participants = (tt, λ _. refl)
  update_by-Guarded (some change) jid participants =
      by_arms (Guarded client.ready) (is_empty participants) (fails 400 participants_required) _
        (λ _. (tt, λ _. refl))
        (λ peopled.
          if_ready-Guarded
            (update_in client (jid_de client.jids jid) (jids_of client participants) change)
            (update_in-Sound (jid_de client.jids jid) (jids_of client participants) change
              (λ l e. jids_of_ne participants l peopled e)))

  then_edit-Sound :
      (c : GroupCommand) (a : Option GroupAnswer) (rest : Reaction)
      → IsValid c
      → Sound rest
      → Sound (then_edit client c a rest)
  then_edit-Sound c none rest valid h = (valid, tt)
  then_edit-Sound c (some a) rest valid h = (valid, h)

  edit_topic-Sound :
      (group : WaJid) (done : List Text) (topic : Option Text)
      → Sound (edit_topic client group done topic)
  edit_topic-Sound group done none = tt
  edit_topic-Sound group done (some topic) =
      then_edit-Sound (set_group_topic group topic) (client.answer (set_group_topic group topic)) _
        tt tt

  edit_in-Sound :
      (group : Option WaJid) (name topic : Option Text) → Sound (edit_in client group name topic)
  edit_in-Sound none name topic = tt
  edit_in-Sound (some group) none topic = edit_topic-Sound group [] topic
  edit_in-Sound (some group) (some name) topic =
      by_arms Sound (too_long name) (fails 400 (name_too_long (length name))) _ (λ _. tt)
        (λ short.
          then_edit-Sound (set_group_name group name) (client.answer (set_group_name group name)) _
            (ground arith) (edit_topic-Sound group (codes "name" ∷ []) topic))

  on_whatsapp-Guarded : (phones : List Text) → Guarded client.ready (on_whatsapp client phones)
  unfolding on_whatsapp
  on_whatsapp-Guarded phones =
      by_arms (Guarded client.ready) (is_empty phones) (fails 400 phones_required) _
        (λ _. (tt, λ _. refl))
        (λ some_phones.
          if_ready-Guarded (ask client (is_on_whatsapp phones))
            (ne-nil_of_is_empty phones some_phones, tt))

  handle_body-Guarded :
      (lib : Std) (r : GroupRequest) → Guarded client.ready (handle_body client lib r)
  unfolding list_groups group_detail group_participants group_edit
  handle_body-Guarded lib (create_request name participants) =
      group_create-Guarded name participants
  handle_body-Guarded lib list_request = if_ready-Guarded (ask client joined_groups) (tt, tt)
  handle_body-Guarded lib (info_request jid) =
      if_ready-Guarded (info_of client (jid_de client.jids jid))
        (info_of-Sound (jid_de client.jids jid))
  handle_body-Guarded lib (participants_request jid action participants) =
      update_by-Guarded (action_of client (map lib.to_lower (trim_space action))) jid participants
  handle_body-Guarded lib (edit_request jid name topic) =
      if_ready-Guarded (edit_in client (jid_de client.jids jid) name topic)
        (edit_in-Sound (jid_de client.jids jid) name topic)
  handle_body-Guarded lib (numbers_request phones) = on_whatsapp-Guarded phones

  -- Whatever is requested, WhatsApp is asked only for groups with a name and with participants, for
  -- names of at most 25 characters, and for changes and numbers that name someone; and for nothing
  -- while the client is not ready.
  pub handle_group-Guarded :
      (lib : Std) (post : Bool) (r : Option GroupRequest)
      → Guarded client.ready (handle_group client lib post r)
  unfolding handle_group
  handle_group-Guarded lib post none =
      by_arms (Guarded client.ready) post (fails 400 invalid_json) (fails 405 use_post)
        (λ _. (tt, λ _. refl)) (λ _. (tt, λ _. refl))
  handle_group-Guarded lib post (some r) =
      by_arms (Guarded client.ready) (not post && not (reads_only client r)) (fails 405 use_post)
        (handle_body client lib r) (λ _. (tt, λ _. refl)) (λ _. handle_body-Guarded lib r)
