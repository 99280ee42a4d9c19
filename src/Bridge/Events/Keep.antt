-- ===== src/Bridge/Events/Keep.antt =====
-- What a history sync leaves of what is stored: the rows, their contents and the chats' names.
use whatsmcp.Base.{
  ℕ, ◌≡◌, ◌≢◌, refl, sym, ap, ◌∙◌, ◌⊎◌, inl, inr, Bool, ◌&&◌, Option, none, some, [], Text,
  is_empty, Bool-cases, Option-cases, pair_key, text_key, same, is_empty-eq-true, if◌then◌else◌,
}
use whatsmcp.Sql.{insert_or_replace, Db, exec, first, has_key}
use whatsmcp.Sql.Laws.{first-insert_or_replace}
use whatsmcp.Bridge.Media.{MediaInfo}
use whatsmcp.Bridge.Store.{
  Tables, ChatRow, MessageRow, message_row, chat_key, message_key, put_chat, put_message,
  set_content, store_chat, store_message, fill_history_message,
}
use whatsmcp.Bridge.Store.Rows.{
  Healthy, find_message, option_map, exec-Healthy, put_message_lem, after_history,
  fill_history_message_lem,
}

-- The row is as it was, or it had no content and got one, and nothing else of it changed.
abbrev pub KeepsRow : MessageRow → MessageRow → Type 0
KeepsRow r s = (s ≡ r) ⊎ ((r.content ≡ []) × (s ≡ set_content s.content r))

abbrev pub find_chat : Text → Tables → Option ChatRow
find_chat jid t = first (has_key chat_key jid) t.chats

-- No stored message is lost or changed but for missing content, and no name of a chat that has one.
pub record Kept (a b : Db Tables) : Type 0 where
  pub healthy : Healthy b
  pub rows :
      (k : Text × Text) (r : MessageRow)
      → find_message k a.tables ≡ some r
      → (s : MessageRow) × (find_message k b.tables ≡ some s) × KeepsRow r s
  pub names :
      (jid : Text) (c : ChatRow)
      → find_chat jid a.tables ≡ some c
      → c.name ≢ []
      → (d : ChatRow) × (find_chat jid b.tables ≡ some d) × (d.name ≡ c.name)

KeepsRow-trans : (r s t : MessageRow) → KeepsRow r s → KeepsRow s t → KeepsRow r t
KeepsRow-trans r s t (inl e) g = rw (← e) g
KeepsRow-trans r s t (inr (bare, e)) (inl f) = inr (bare, rw f e)
KeepsRow-trans r s t (inr (bare, e)) (inr (_, f)) =
    inr (bare, f ∙ ap (λ x. set_content t.content x) e)

pub Kept-refl : (a : Db Tables) → Healthy a → Kept a a
Kept-refl a h = record {
  healthy = h;
  rows = λ k r has. (r, has, inl refl);
  names = λ jid c has named. (c, has, refl);
}

pub Kept-trans : (a b c : Db Tables) → Kept a b → Kept b c → Kept a c
Kept-trans a b c p q = record {
  healthy = q.healthy;
  rows = λ k r has.
      let (s, has_s, rs) = p.rows k r has in
      let (t, has_t, st) = q.rows k s has_s in (t, has_t, KeepsRow-trans r s t rs st);
  names = λ jid c has named.
      let (d, has_d, same_d) = p.names jid c has named in
      let (e, has_e, same_e) = q.names jid d has_d (λ bare. named (sym same_d ∙ bare)) in
      (e, has_e, same_e ∙ same_d);
}

pub fill-Kept :
    (id chat_jid content : Text) (db : Db Tables)
    → Healthy db
    → Kept db ((fill_history_message id chat_jid content db).0)
fill-Kept id chat_jid content db h =
    let (_, healthy, chats, rows) = fill_history_message_lem id chat_jid content db h in
    record {
      healthy = healthy;
      rows = λ k r has. (
        after_history (id, chat_jid) content r,
        rows k ∙ ap (λ o. option_map (after_history (id, chat_jid) content) o) has,
        keeps r,
      );
      names = λ jid c has named. (c, rw chats has, refl);
    }
  where
    keeps : (r : MessageRow) → KeepsRow r (after_history (id, chat_jid) content r)
    keeps r = elim (Bool-cases (same (message_key r) (id, chat_jid))) [
      | inr other ↦ rw other (inl refl)
      | inl meant ↦ elim (Bool-cases (is_empty r.content)) [
        | inr full ↦ rw (meant, full) (inl refl)
        | inl bare ↦ rw (meant, bare) (inr (is_empty-eq-true r.content bare, refl))
      ]
    ]

pub store_chat-Kept :
    (jid name : Text) (time : ℕ) (db : Db Tables)
    → Healthy db
    → ((c : ChatRow) → find_chat jid db.tables ≡ some c → c.name ≢ [] → name ≡ c.name)
    → Kept db ((store_chat jid name time db).0)
unfolding store_chat
store_chat-Kept jid name time db h known =
    let r : ChatRow = record { jid = jid; name = name; last_message_time = time } in
    rw (exec-Healthy (put_chat r) db _ h refl) (record {
      healthy = refl;
      rows = λ k m has. (m, has, inl refl);
      names = λ other c has named. chart other c has named;
    })
  where
    r : ChatRow
    r = record { jid = jid; name = name; last_message_time = time }

    chart :
        (other : Text) (c : ChatRow)
        → find_chat other db.tables ≡ some c
        → c.name ≢ []
        → (d : ChatRow) × (first
              (has_key chat_key other)
              (insert_or_replace chat_key r db.tables.chats)
            ≡ some d)
          × (d.name ≡ c.name)
    chart other c has named = elim (Bool-cases (same jid other)) [
      | inl hit ↦
          let e : jid ≡ other = (text_key.beq_iff jid other).0 hit in
          (
            r,
            rw (first-insert_or_replace chat_key other r db.tables.chats) (rw hit refl),
            known c (rw e has) named,
          )
      | inr apart ↦
          (c, rw (first-insert_or_replace chat_key other r db.tables.chats) (rw apart has), refl)
    ]

refused-Kept :
    (stmt : Tables → Option Tables) (db : Db Tables)
    → Healthy db
    → stmt db.tables ≡ none
    → Kept db ((exec stmt db).0)
unfolding exec
refused-Kept stmt db h e =
    rw (h, e)
      (record {
        healthy = refl;
        rows = λ k r has. (r, has, inl refl);
        names = λ jid c has named. (c, has, refl);
      })

put_message-Kept :
    (r : MessageRow) (db : Db Tables)
    → Healthy db
    → find_message (message_key r) db.tables ≡ none
    → Kept db ((exec (put_message r) db).0)
put_message-Kept r db h new = elim (Option-cases (find_chat r.chat_jid db.tables)) [
  | inl missing ↦
      refused-Kept (put_message r) db h (unfold put_message in rw (missing, put_message) refl)
  | inr (c, has) ↦
      let (next, put, chats, finds) = put_message_lem r db.tables c has in
      rw (exec-Healthy (put_message r) db next h put) (record {
        healthy = refl;
        rows = λ k m found_m. (m, finds k ∙ old k m found_m, inl refl);
        names = λ jid d found_d named. (d, rw chats found_d, refl);
      })
]
  where
    old :
        (k : Text × Text) (m : MessageRow)
        → find_message k db.tables ≡ some m
        → (if same (message_key r) k then some r else find_message k db.tables) ≡ some m
    old k m found_m = elim (Bool-cases (same (message_key r) k)) [
      | inl hit ↦
          let e : message_key r ≡ k = (pair_key.beq_iff (message_key r) k).0 hit in absurd cc
      | inr apart ↦ rw apart found_m
    ]

pub store_message-Kept :
    (id chat_jid sender content : Text) (timestamp : ℕ) (mine : Bool) (info : MediaInfo)
    (quoted_id quoted_text : Text) (db : Db Tables)
    → Healthy db
    → find_message (id, chat_jid) db.tables ≡ none
    → Kept db
        ((store_message id chat_jid sender content timestamp mine info quoted_id quoted_text db).0)
unfolding store_message
store_message-Kept id chat_jid sender content timestamp mine info quoted_id quoted_text db h new =
    elim (Bool-cases (is_empty content && is_empty info.media_type)) [
      | inl nothing ↦ rw nothing (Kept-refl db h)
      | inr stored ↦
          let r : MessageRow =
            message_row id chat_jid sender content timestamp mine info quoted_id quoted_text in
          rw stored (put_message-Kept r db h new)
    ]
