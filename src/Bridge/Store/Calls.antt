-- ===== src/Bridge/Store/Calls.antt =====
-- Every call of the store as one data type, and that a run of calls keeps the tables well-formed,
-- whichever statements the engine refuses.
use whatsmcp.Base.{
  ℕ, refl, Bool, not, Option, some, List, [], ◌∷◌, Text, is_empty, is_some, All, ◌&&◌, Bool-cases,
  Option-cases, inl, inr, pair_key,
}
use whatsmcp.Sql.{Db, exec, exec_all, transaction, query, first, has_key}
use whatsmcp.Bridge.Proto.{Message}
use whatsmcp.Bridge.Media.{MediaInfo}
use whatsmcp.Bridge.Menu.{MenuOption}
use whatsmcp.Bridge.Store.{
  Tables, MessageRow, message_row, RawRow, bool_to_int, message_key, found, put_message, put_chat,
  add_chat, put_label, put_label_chat, change_messages, lacks_content, set_content, set_direct_path,
  set_media, store_chat, ensure_chat, store_label, store_label_chat, store_message,
  fill_history_message, store_direct_path, store_media_info,
}
use whatsmcp.Bridge.Store.Menus.{
  put_options, drop_options, store_menu_options, option_row, Wire, store_raw_message, put_raw,
}
use whatsmcp.Bridge.Store.Invariant.{
  WellFormed, Keeps, exec-WellFormed, put_message-Keeps, put_chat-Keeps, add_chat-Keeps,
  put_label-Keeps, put_label_chat-Keeps, put_raw-Keeps, put_option-Keeps, drop_options-Keeps,
  update-WellFormed,
}

exec_all-WellFormed :
    (stmts : List (Tables → Option Tables)) (db : Db Tables)
    → All Keeps stmts
    → WellFormed db.tables
    → WellFormed ((exec_all stmts db).0.tables)
unfolding exec_all
exec_all-WellFormed [] db keeps h = h
exec_all-WellFormed (stmt ∷ stmts) db (keep, keeps) h =
    let once : WellFormed ((exec stmt db).0.tables) = exec-WellFormed stmt db keep h in
    elim (Bool-cases ((exec stmt db).1)) [
      | inl done ↦ rw (done, exec_all) (exec_all-WellFormed stmts ((exec stmt db).0) keeps once)
      | inr refused ↦ rw (refused, exec_all) once
    ]

-- `Begin` and `Commit` change no row.
abbrev nothing : Tables → Option Tables
nothing t = some t

nothing-Keeps : Keeps nothing
nothing-Keeps t h = h

transaction-WellFormed :
    (stmts : List (Tables → Option Tables)) (db : Db Tables)
    → All Keeps stmts
    → WellFormed db.tables
    → WellFormed ((transaction stmts db).0.tables)
unfolding transaction
transaction-WellFormed stmts db keeps h =
    let began : WellFormed ((exec nothing db).0.tables) =
      exec-WellFormed nothing db nothing-Keeps h in
    let ran : WellFormed ((exec_all stmts ((exec nothing db).0)).0.tables) =
      exec_all-WellFormed stmts ((exec nothing db).0) keeps began in
    let ended : WellFormed ((exec nothing ((exec_all stmts ((exec nothing db).0)).0)).0.tables) =
      exec-WellFormed nothing ((exec_all stmts ((exec nothing db).0)).0) nothing-Keeps ran in
    elim (Bool-cases ((exec nothing db).1)) [
      | inr no_begin ↦ rw no_begin began
      | inl begin ↦ elim (Bool-cases ((exec_all stmts ((exec nothing db).0)).1)) [
        | inr failed ↦ rw (begin, failed) h
        | inl done ↦
            elim (Bool-cases ((exec nothing ((exec_all stmts ((exec nothing db).0)).0)).1)) [
              | inr no_commit ↦ rw (begin, done, no_commit) h
              | inl committed ↦ rw (begin, done, committed) ended
            ]
      ]
    ]

put_options-Keeps :
    (id chat_jid : Text) (opts : List MenuOption) → All Keeps (put_options id chat_jid opts)
put_options-Keeps id chat_jid [] = tt
put_options-Keeps id chat_jid (o ∷ opts) =
    (put_option-Keeps (option_row id chat_jid o), put_options-Keeps id chat_jid opts)

pub store_menu_options-WellFormed :
    (id chat_jid : Text) (opts : List MenuOption) (db : Db Tables)
    → WellFormed db.tables
    → WellFormed ((store_menu_options id chat_jid opts db).0.tables)
unfolding store_menu_options
store_menu_options-WellFormed id chat_jid opts db h = elim (Bool-cases (is_empty opts)) [
  | inl nothing_to_do ↦ rw nothing_to_do h
  | inr options ↦ rw options (
      transaction-WellFormed (drop_options id chat_jid ∷ put_options id chat_jid opts) db
        (drop_options-Keeps id chat_jid, put_options-Keeps id chat_jid opts) h)
]

pub store_message-WellFormed :
    (id chat_jid sender content : Text) (timestamp : ℕ) (is_from_me : Bool) (info : MediaInfo)
    (quoted_id quoted_text : Text) (db : Db Tables)
    → WellFormed db.tables
    → WellFormed (
        (store_message id chat_jid sender content timestamp is_from_me info quoted_id quoted_text
          db).0.tables)
unfolding store_message
store_message-WellFormed id chat_jid sender content timestamp mine info quoted_id quoted_text db h =
    elim (Bool-cases (is_empty content && is_empty info.media_type)) [
      | inl nothing_to_store ↦ rw nothing_to_store h
      | inr stored ↦
          let r : MessageRow =
            message_row id chat_jid sender content timestamp mine info quoted_id quoted_text in
          rw stored (exec-WellFormed (put_message r) db (put_message-Keeps r) h)
    ]

pub fill_history_message-WellFormed :
    (id chat_jid content : Text) (db : Db Tables)
    → WellFormed db.tables
    → WellFormed ((fill_history_message id chat_jid content db).0.tables)
unfolding fill_history_message query
fill_history_message-WellFormed id chat_jid content db h =
    let row : Db Tables × Option (Option MessageRow) =
      query (λ t. first (has_key message_key (id, chat_jid)) t.messages) db in
    elim (Bool-cases (not (is_some (found (row.1))))) [
      | inl absent ↦ rw absent h
      | inr present ↦ elim (Bool-cases (is_empty content)) [
        | inl nothing_to_fill ↦ rw (present, nothing_to_fill) h
        | inr filled ↦
            rw (present, filled)
              (exec-WellFormed (change_messages (lacks_content id chat_jid) (set_content content))
                (row.0)
                (λ t.
                  update-WellFormed (lacks_content id chat_jid) (set_content content) t (λ _. refl))
                h)
      ]
    ]

pub store_direct_path-WellFormed :
    (id chat_jid path : Text) (db : Db Tables)
    → WellFormed db.tables
    → WellFormed ((store_direct_path id chat_jid path db).0.tables)
unfolding store_direct_path
store_direct_path-WellFormed id chat_jid path db h = elim (Bool-cases (is_empty path)) [
  | inl nothing_to_store ↦ rw nothing_to_store h
  | inr stored ↦ rw stored (
      exec-WellFormed (change_messages (has_key message_key (id, chat_jid)) (set_direct_path path))
        db
        (λ t.
          update-WellFormed (has_key message_key (id, chat_jid)) (set_direct_path path) t
            (λ _. refl))
        h)
]

pub store_raw_message-WellFormed :
    (wire : Wire) (id chat_jid : Text) (msg : Message) (db : Db Tables)
    → WellFormed db.tables
    → WellFormed ((store_raw_message wire id chat_jid msg db).0.tables)
unfolding store_raw_message
store_raw_message-WellFormed wire id chat_jid msg db h = elim (Option-cases (wire.marshal msg)) [
  | inl failed ↦ rw (failed, store_raw_message) h
  | inr (b, done) ↦
      let r : RawRow = record { message_id = id; chat_jid = chat_jid; proto = b } in
      rw (done, store_raw_message) (exec-WellFormed (put_raw r) db (put_raw-Keeps r) h)
]

-- The calls that change the database.
pub data Call : Type 0 where
  chat : (jid name : Text) → (time : ℕ) → Call
  ensured_chat : (jid : Text) → (time : ℕ) → Call
  label : (id name : Text) → (color : ℕ) → (deleted : Bool) → Call
  label_chat : (id chat_jid : Text) → (labeled : Bool) → Call
  message :
      (id chat_jid sender content : Text)
      → (timestamp : ℕ) → (is_from_me : Bool) → MediaInfo
      → (quoted_id quoted_text : Text) → Call
  history_message : (id chat_jid content : Text) → Call
  direct_path : (id chat_jid path : Text) → Call
  media_info : (id chat_jid url : Text) → (key sha enc_sha : List ℕ) → (length : ℕ) → Call
  menu_options : (id chat_jid : Text) → List MenuOption → Call
  raw_message : (id chat_jid : Text) → Message → Call

module _ (wire : Wire) where
  unfoldable pub call : Call → Db Tables → Db Tables
  unfolding store_chat ensure_chat store_label store_label_chat store_message fill_history_message
      store_direct_path store_media_info store_menu_options store_raw_message
  call (chat jid name time) db = (store_chat jid name time db).0
  call (ensured_chat jid time) db = (ensure_chat jid time db).0
  call (label id name color deleted) db = (store_label id name color deleted db).0
  call (label_chat id chat_jid labeled) db = (store_label_chat id chat_jid labeled db).0
  call (message id chat_jid sender content timestamp mine info quoted_id quoted_text) db =
      (store_message id chat_jid sender content timestamp mine info quoted_id quoted_text db).0
  call (history_message id chat_jid content) db = (fill_history_message id chat_jid content db).0
  call (direct_path id chat_jid path) db = (store_direct_path id chat_jid path db).0
  call (media_info id chat_jid url key sha enc_sha length) db =
      (store_media_info id chat_jid url key sha enc_sha length db).0
  call (menu_options id chat_jid opts) db = (store_menu_options id chat_jid opts db).0
  call (raw_message id chat_jid msg) db = (store_raw_message wire id chat_jid msg db).0

  unfoldable pub calls : List Call → Db Tables → Db Tables
  unfolding call
  calls [] db = db
  calls (c ∷ cs) db = calls cs (call c db)

  call-WellFormed :
      (c : Call) (db : Db Tables) → WellFormed db.tables → WellFormed ((call c db).tables)
  unfolding call store_chat ensure_chat store_label store_label_chat store_media_info
  call-WellFormed (chat jid name time) db h =
      exec-WellFormed (put_chat (record { jid = jid; name = name; last_message_time = time })) db
        (put_chat-Keeps _) h
  call-WellFormed (ensured_chat jid time) db h =
      exec-WellFormed (add_chat (record { jid = jid; name = []; last_message_time = time })) db
        (add_chat-Keeps _) h
  call-WellFormed (label id name color deleted) db h =
      exec-WellFormed
        (put_label
          (record { label_id = id; name = name; color = color; deleted = bool_to_int deleted }))
        db (put_label-Keeps _) h
  call-WellFormed (label_chat id chat_jid labeled) db h =
      exec-WellFormed
        (put_label_chat
          (record { label_id = id; chat_jid = chat_jid; labeled = bool_to_int labeled }))
        db (put_label_chat-Keeps _) h
  call-WellFormed (message id chat_jid sender content timestamp mine info quoted_id quoted_text) db
        h =
      store_message-WellFormed id chat_jid sender content timestamp mine info quoted_id quoted_text
        db h
  call-WellFormed (history_message id chat_jid content) db h =
      fill_history_message-WellFormed id chat_jid content db h
  call-WellFormed (direct_path id chat_jid path) db h =
      store_direct_path-WellFormed id chat_jid path db h
  call-WellFormed (media_info id chat_jid url key sha enc_sha length) db h =
      exec-WellFormed
        (change_messages (has_key message_key (id, chat_jid))
          (set_media url key sha enc_sha length))
        db
        (λ t.
          update-WellFormed (has_key message_key (id, chat_jid))
            (set_media url key sha enc_sha length) t (λ _. refl))
        h
  call-WellFormed (menu_options id chat_jid opts) db h =
      store_menu_options-WellFormed id chat_jid opts db h
  call-WellFormed (raw_message id chat_jid msg) db h =
      store_raw_message-WellFormed wire id chat_jid msg db h

-- Primary keys stay unique and every stored message keeps its chat, through any run of calls, with
-- any of the statements refused by the engine.
pub calls-WellFormed :
    (wire : Wire) (cs : List Call) (db : Db Tables)
    → WellFormed db.tables
    → WellFormed ((calls wire cs db).tables)
unfolding calls
calls-WellFormed wire [] db h = h
calls-WellFormed wire (c ∷ cs) db h =
    calls-WellFormed wire cs (call wire c db) (call-WellFormed wire c db h)
