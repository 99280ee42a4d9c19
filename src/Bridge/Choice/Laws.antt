-- ===== src/Bridge/Choice/Laws.antt =====
-- What a choice finds, and that every option read from a message can be clicked.
use whatsmcp.Base.{
  ℕ, zero, suc, ◌+◌, ◌-◌, ◌^◌, ◌<◌, ◌≡◌, refl, ◌≢◌, ◌⊎◌, inl, inr, Bool, true, Bool-cases,
  Option-cases, Option, none, some, List, [], ◌∷◌, ok, Text, text_eq, text_eq_iff, is_empty,
  trim_space, contains, length, ltb, ◌==◌, get_elem?, arith, ap, ◌∙◌, ◌%◌, has_prefix,
  ne-nil_of_is_empty, is_empty-eq-true, All-get_elem?, ==_iff,
}
use whatsmcp.Bridge.Std.{Std}
use whatsmcp.Bridge.Proto.{Inner}
use whatsmcp.Bridge.Menu.{
  MenuOption, kind_list, kind_button, kind_template, kind_nativeflow, extract_menu_options,
}
use whatsmcp.Bridge.Menu.Options.{
  IsNumbered, IsKnown, extract_menu_options-IsMenu, index_of_get_elem?,
}
use whatsmcp.Bridge.Choice.{
  find_option, or_error, lower, find_title, choose_option, no_index, no_id, no_title, Reply,
  list_reply, ChoiceError, ReplyContext, buttons_reply, template_reply, native_reply, build_reply,
  reply_context,
}

-- An index below the first number is not found.
find_index_below :
    (n k : ℕ) (opts : List MenuOption)
    → IsNumbered n opts
    → k < n
    → find_option (λ o. o.index == k) opts ≡ none
unfolding find_option
find_index_below n k [] h lt = refl
find_index_below n k (x ∷ opts) (hx, h) lt = ground (arith, find_index_below (suc n) k opts h)

find_index :
    (n i k : ℕ) (opts : List MenuOption)
    → IsNumbered n opts
    → k ≡ n + i
    → find_option (λ o. o.index == k) opts ≡ get_elem? opts i
unfolding find_option
find_index n i k [] h e = refl
find_index n zero k (x ∷ opts) (hx, h) e = ground arith
find_index n (suc i) k (x ∷ opts) (hx, h) e =
    ground (arith, find_index (suc n) i k opts h (omega arith))

-- Choosing by number: the option at that place of the menu, counted from 1, and an error behind its
-- end.
pub choose_option_index :
    (lib : Std) (msg : Inner) (i : ℕ) (id title : Text)
    → choose_option lib (extract_menu_options lib msg) (suc i) id title
      ≡ or_error
          (get_elem? (extract_menu_options lib msg) i)
          (no_index (suc i) (length (extract_menu_options lib msg)))
unfolding choose_option
choose_option_index lib msg i id title = ground (
  arith,
  find_index 1 i (suc i) (extract_menu_options lib msg)
      (extract_menu_options-IsMenu lib msg).numbered (omega arith),
)

find_option_sound :
    (p : MenuOption → Bool) (opts : List MenuOption) (o : MenuOption)
    → find_option p opts ≡ some o
    → (p o ≡ true) × ((i : ℕ) × (get_elem? opts i ≡ some o))
unfolding find_option
find_option_sound p [] o h = cc
find_option_sound p (x ∷ opts) o h = elim (Bool-cases (p x)) [
  | inl hit ↦ let e : x ≡ o = ground arith in (rw (← e) hit, (0, ap some e))
  | inr miss ↦
      let (holds, (i, at)) = find_option_sound p opts o (ground arith) in (holds, (suc i, at))
]

has_prefix_self : (s : Text) → has_prefix s s ≡ true
unfolding has_prefix
has_prefix_self [] = refl
has_prefix_self (c ∷ s) = ground (arith, has_prefix_self s)

contains_self : (s : Text) → contains s s ≡ true
unfolding contains
contains_self [] = has_prefix_self []
contains_self (c ∷ s) = rw (has_prefix_self (c ∷ s))

-- What the request asks for: the index if it is positive, else the ID if it is set, else the title.
abbrev pub Fits : Std → ℕ → Text → Text → MenuOption → Type 0
Fits lib index id title o =
    ((0 < index) × (o.index ≡ index))
    ⊎ ((index ≡ 0) × (id ≢ []) × (o.option_id ≡ id))
    ⊎ ((index ≡ 0)
        × (id ≡ [])
        × (title ≢ [])
        × (contains (lower lib o.title) (lower lib (trim_space title)) ≡ true))

or_error-eq-ok :
    (m : Option MenuOption) (e : ChoiceError) (o : MenuOption) → or_error m e ≡ ok o → m ≡ some o
or_error-eq-ok none e o h = cc
or_error-eq-ok (some x) e o h = ground arith

module _ (lib : Std) (opts : List MenuOption) where
  find_title_sound :
      (target : Text) (o : MenuOption)
      → find_title lib target opts ≡ some o
      → (contains (lower lib o.title) target ≡ true) × ((i : ℕ) × (get_elem? opts i ≡ some o))
  unfolding find_title
  find_title_sound target o h =
      elim (Option-cases (find_option (λ x. text_eq (lower lib x.title) target) opts)) [
        | inl missing ↦ find_option_sound _ opts o (rw (missing, find_title) at h)
        | inr (x, found) ↦
            let e : x ≡ o = ground arith in
            let (exact, place) = find_option_sound _ opts x found in
            let whole : lower lib x.title ≡ target = (text_eq_iff _ _).0 exact in
            rw (← e) (rw whole (contains_self target), place)
      ]

  -- A chosen option stands in the menu and fits the request.
  pub choose_option_sound :
      (index : ℕ) (id title : Text) (o : MenuOption)
      → choose_option lib opts index id title ≡ ok o
      → Fits lib index id title o × ((i : ℕ) × (get_elem? opts i ≡ some o))
  unfolding choose_option
  choose_option_sound index id title o h = elim (Bool-cases (ltb 0 index)) [
    | inl by_index ↦
        let (hit, place) =
          find_option_sound (λ x. x.index == index) opts o
            (or_error-eq-ok _ (no_index index (length opts)) o (ground arith)) in
        (inl (ground arith, (==_iff o.index index).0 hit), place)
    | inr no_number ↦ elim (Bool-cases (is_empty id)) [
      | inr by_id ↦
          let (hit, place) =
            find_option_sound (λ x. text_eq x.option_id id) opts o
              (or_error-eq-ok _ (no_id id) o (ground arith)) in
          (
            inr (
                inl
                  (ground arith, ne-nil_of_is_empty id by_id, (text_eq_iff o.option_id id).0 hit)),
            place,
          )
      | inl no_given_id ↦ elim (Bool-cases (is_empty title)) [
        | inr by_title ↦
            let (hit, place) =
              find_title_sound (lower lib (trim_space title)) o
                (or_error-eq-ok _ (no_title title) o (ground arith)) in
            (
              inr (
                  inr (
                    ground arith,
                    is_empty-eq-true id no_given_id,
                    ne-nil_of_is_empty title by_title,
                    hit,
                  )),
              place,
            )
        | inl nothing ↦ absurd (ground arith)
      ]
    ]
  ]

-- The reply is of the option's kind, names it as the bot expects, and quotes by the context.
abbrev pub ClicksOn : MenuOption → ℕ → ReplyContext → Reply → Type 0
ClicksOn o i ctx (list_reply title row_id c) =
    (o.kind ≡ kind_list) × (title ≡ o.title) × (row_id ≡ o.option_id) × (c ≡ ctx)
ClicksOn o i ctx (buttons_reply button_id text c) =
    (o.kind ≡ kind_button) × (button_id ≡ o.option_id) × (text ≡ o.title) × (c ≡ ctx)
ClicksOn o i ctx (template_reply id text index c) =
    (o.kind ≡ kind_template) × (id ≡ o.option_id) × (text ≡ o.title) × (index ≡ i) × (c ≡ ctx)
ClicksOn o i ctx (native_reply text name params_json c) =
    (o.kind ≡ kind_nativeflow)
    × (name ≡ o.option_id)
    × (text ≡ o.title)
    × (params_json ≡ o.params_json)
    × (c ≡ ctx)

module _ (o : MenuOption) (i : ℕ) (stanza participant chat : Text) (quoted : Inner) where
  build_reply_known :
      IsKnown o
      → o.index ≡ suc i
      → i < 2 ^ 32
      → (r : Reply) × (build_reply o stanza participant chat quoted ≡ some r)
        × ClicksOn o i (reply_context stanza participant chat quoted) r
  unfolding build_reply text_eq
  build_reply_known (inl e) n lt = (
    list_reply o.title o.option_id (reply_context stanza participant chat quoted),
    rw e,
    (e, refl, refl, refl),
  )
  build_reply_known (inr (inl e)) n lt = (
    buttons_reply o.option_id o.title (reply_context stanza participant chat quoted),
    rw e,
    (e, refl, refl, refl),
  )
  build_reply_known (inr (inr (inl e))) n lt = (
    template_reply o.option_id o.title ((o.index + 2 ^ 32 - 1) % 2 ^ 32)
        (reply_context stanza participant chat quoted),
    rw e,
    (e, refl, refl, omega arith, refl),
  )
  build_reply_known (inr (inr (inr e))) n lt = (
    native_reply o.title o.option_id o.params_json (reply_context stanza participant chat quoted),
    rw e,
    (e, refl, refl, refl, refl),
  )

-- Every option read from a message has a reply, of its own kind, with its ID, its title and, for a
-- template, its place counted from 0: the branch for an unknown kind is not reached.
pub build_reply_extracted :
    (lib : Std) (msg : Inner) (i : ℕ) (o : MenuOption) (stanza participant chat : Text)
    (quoted : Inner)
    → get_elem? (extract_menu_options lib msg) i ≡ some o
    → i < 2 ^ 32
    → (r : Reply) × (build_reply o stanza participant chat quoted ≡ some r)
      × ClicksOn o i (reply_context stanza participant chat quoted) r
build_reply_extracted lib msg i o stanza participant chat quoted at lt =
    let m = extract_menu_options-IsMenu lib msg in
    build_reply_known o i stanza participant chat quoted (All-get_elem? IsKnown _ i o m.known at)
      (index_of_get_elem? 1 i _ o m.numbered at ∙ omega arith) lt
