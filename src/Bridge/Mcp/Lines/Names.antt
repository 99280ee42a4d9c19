-- ===== src/Bridge/Mcp/Lines/Names.antt =====
-- Whose name a line shows.
use mathlib.Core.List.{Memᴰ}
use whatsmcp.Base.{
  arith, ◌≡◌, ◌⊎◌, inl, inr, refl, sym, Bool, true, Option, none, some, List, [], ◌∷◌, map, Text,
  is_empty, Bool-cases, by_arms,
}
use whatsmcp.Sql.{Db, query, select, next_fault}
use whatsmcp.Bridge.Store.{Tables, ChatRow}
use whatsmcp.Bridge.Jids.{JidMap}
use whatsmcp.Bridge.Mcp.Lines.{
  Contact, Namer, known_as, or_user, contact_name, user_jids, names_chat, chat_names, named_by_chat,
  display_name,
}

-- One of the rows, if any.
abbrev pub PicksOne : Namer → Type 0
PicksOne namer =
    (names : List Text) (name : Text) → namer.limit_one names ≡ some name → Memᴰ name names

module _ (jids : JidMap) (namer : Namer) (user : Text) where
  -- A contact that the client has under one of these JIDs.
  abbrev pub IsContact : List Text → Text → Type 0
  IsContact ss name =
      (s : Text) × (c : Contact) × Memᴰ s ss
      × (namer.contact s ≡ some c)
      × ((name ≡ c.full_name) ⊎ (name ≡ c.push_name))

  -- A chat with the user that has a name other than the user.
  abbrev pub IsChat : Tables → Text → Type 0
  IsChat t name =
      (c : ChatRow) × Memᴰ c t.chats × (c.name ≡ name) × (names_chat jids namer user c ≡ true)

  -- The user, or a name of one of the user's contacts or chats.
  abbrev pub IsOwnName : Tables → Text → Type 0
  IsOwnName t name = (name ≡ user) ⊎ IsContact (user_jids jids namer user) name ⊎ IsChat t name

  IsContact-cons :
      (s : Text) (ss : List Text) (name : Text) → IsContact ss name → IsContact (s ∷ ss) name
  IsContact-cons s ss name (x, c, m, has, is) = (x, c, Memᴰ.tail m, has, is)

  contact_name-IsContact :
      (ss : List Text) (name : Text) → contact_name jids namer ss ≡ some name → IsContact ss name
  unfolding contact_name
  contact_name-IsContact [] name h = cc
  contact_name-IsContact (s ∷ ss) name h =
      by_contact (namer.contact s) refl (contact_name-IsContact ss name) h
    where
      by_contact :
          (o : Option Contact)
          → namer.contact s ≡ o
          → (contact_name jids namer ss ≡ some name → IsContact ss name)
          → known_as o (contact_name jids namer ss) ≡ some name
          → IsContact (s ∷ ss) name
      by_contact none has later h = IsContact-cons s ss name (later h)
      by_contact (some c) has later h = elim (Bool-cases (is_empty c.full_name)) [
        | inr full ↦ (s, c, Memᴰ.head refl, has, inl (ground arith))
        | inl bare ↦ elim (Bool-cases (is_empty c.push_name)) [
          | inr push ↦ (s, c, Memᴰ.head refl, has, inr (ground arith))
          | inl unknown ↦ IsContact-cons s ss name (later (ground arith))
        ]
      ]

  -- A name among those of the rows that a query finds is the name of such a row.
  row_of_name :
      (p : ChatRow → Bool) (name : Text) (rows : List ChatRow)
      → Memᴰ name (map (λ c. c.name) (select p rows))
      → (c : ChatRow) × Memᴰ c rows × (c.name ≡ name) × (p c ≡ true)
  unfolding select
  row_of_name p name [] m = elim m [ ]
  row_of_name p name (x ∷ rows) m = elim (Bool-cases (p x)) [
    | inl hit ↦ here (rw hit at m) hit (row_of_name p name rows)
    | inr miss ↦
        let (c, k, is, holds) = row_of_name p name rows (rw miss at m) in
        (c, Memᴰ.tail k, is, holds)
  ]
    where
      here :
          Memᴰ name (x.name ∷ map (λ c. c.name) (select p rows))
          → p x ≡ true
          → (Memᴰ name (map (λ c. c.name) (select p rows))
              → (c : ChatRow) × Memᴰ c rows × (c.name ≡ name) × (p c ≡ true))
          → (c : ChatRow) × Memᴰ c (x ∷ rows) × (c.name ≡ name) × (p c ≡ true)
      here (Memᴰ.head e) hit later = (x, Memᴰ.head refl, sym e, hit)
      here (Memᴰ.tail m) hit later = let (c, k, is, holds) = later m in (c, Memᴰ.tail k, is, holds)

  picked-IsOwnName :
      (t : Tables) (found : Option Text)
      → PicksOne namer
      → namer.limit_one (chat_names jids namer user t) ≡ found
      → IsOwnName t (or_user user (some found))
  picked-IsOwnName t none picks h = inl refl
  picked-IsOwnName t (some name) picks h = inr (
      inr (
        row_of_name (names_chat jids namer user) name t.chats
          (picks (chat_names jids namer user t) name h)))

  named_by_chat-IsOwnName :
      (known : Option Text) (db : Db Tables)
      → PicksOne namer
      → contact_name jids namer (user_jids jids namer user) ≡ known
      → IsOwnName db.tables ((named_by_chat jids namer user known db).1)
  unfolding query
  named_by_chat-IsOwnName (some name) db picks h =
      inr (inl (contact_name-IsContact (user_jids jids namer user) name h))
  named_by_chat-IsOwnName none db picks h =
      by_arms (λ o. IsOwnName db.tables (or_user user o)) (next_fault db.faults) none
        (some (namer.limit_one (chat_names jids namer user db.tables))) (λ _. inl refl)
        (λ _. picked-IsOwnName db.tables _ picks refl)

-- The name that a line shows for a user is the user's own, whatever the engine refuses: the user as
-- it is stored, or the name of a contact under one of the user's JIDs, or the name of a chat with one
-- of these. The engine's LIMIT 1 is taken to pick one of the rows.
pub display_name-IsOwnName :
    (jids : JidMap) (namer : Namer) (user : Text) (db : Db Tables)
    → PicksOne namer
    → IsOwnName jids namer user db.tables ((display_name jids namer user db).1)
unfolding display_name
display_name-IsOwnName jids namer user db picks =
    named_by_chat-IsOwnName jids namer user (contact_name jids namer (user_jids jids namer user)) db
      picks refl
