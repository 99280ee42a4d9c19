-- ===== src/Bridge/Store/Menus/Stored.antt =====
-- A menu that is stored is read back as it was.
use mathlib.Core.List.{append_assoc, append-nil}
use whatsmcp.Base.{
  ℕ, suc, ◌≡◌, ◌≤◌, ◌<◌, ◌⊎◌, inl, inr, refl, sym, ap, ◌∙◌, arith, Bool, true, false, none, some,
  List, [], ◌∷◌, ◌++◌, map, ok, Text, is_empty, All, All-append, pair_key, same_refl,
}
use whatsmcp.Sql.{Db, exec_all, query, first, select, delete, has_key, insert, order_by}
use whatsmcp.Sql.Laws.{delete-All_miss}
use whatsmcp.Sql.Keyed.{exec-runs, exec_all-runs, transaction-runs}
use whatsmcp.Sql.Order.{IsOrdered, order_by-IsOrdered, select-append, select-delete, select-All}
use whatsmcp.Bridge.Std.{Std}
use whatsmcp.Bridge.Proto.{Inner}
use whatsmcp.Bridge.Menu.{MenuOption, extract_menu_options}
use whatsmcp.Bridge.Menu.Options.{IsNumbered, extract_menu_options-IsMenu}
use whatsmcp.Bridge.Store.{Tables, OptionRow, option_owner}
use whatsmcp.Bridge.Store.Menus.{
  option_key, option_key_key, option_row, drop_options, put_option, put_options, by_index,
  store_menu_options, options_of, read_options, get_menu_options,
}

-- Tables of an engine that refuses nothing.
abbrev pub sound : Tables → Db Tables
sound t = record { tables = t; faults = [] }

first-None_of_All :
    {R : Type 0} (p : R → Bool) (t : List R) → All (λ r. p r ≡ false) t → first p t ≡ none
unfolding first
first-None_of_All p [] h = refl
first-None_of_All p (r ∷ t) (hr, ht) = rw hr (first-None_of_All p t ht)

module _ (id chat_jid : Text) where
  abbrev rows_of : List MenuOption → List OptionRow
  rows_of opts = map (option_row id chat_jid) opts

  abbrev owned : OptionRow → Bool
  owned = has_key option_owner (id, chat_jid)

  -- A row of another message, or of an option before the number `n`.
  abbrev IsBelow : ℕ → OptionRow → Type 0
  IsBelow n r = (owned r ≡ false) ⊎ (r.option.index < n)

  IsBelow-miss :
      (o : MenuOption) (r : OptionRow)
      → IsBelow o.index r
      → has_key option_key (option_key (option_row id chat_jid o)) r ≡ false
  IsBelow-miss o r (inl other) = rw other refl
  IsBelow-miss o r (inr less) = ground arith

  misses :
      (o : MenuOption) (rows : List OptionRow)
      → All (IsBelow o.index) rows
      → All (λ r. has_key option_key (option_key (option_row id chat_jid o)) r ≡ false) rows
  misses o [] h = tt
  misses o (r ∷ rows) (hr, h) = (IsBelow-miss o r hr, misses o rows h)

  IsBelow-suc : (n : ℕ) (rows : List OptionRow) → All (IsBelow n) rows → All (IsBelow (suc n)) rows
  IsBelow-suc n [] h = tt
  IsBelow-suc n (r ∷ rows) (inl other, h) = (inl other, IsBelow-suc n rows h)
  IsBelow-suc n (r ∷ rows) (inr less, h) = (inr (omega arith), IsBelow-suc n rows h)

  abbrev with_options : Tables → List OptionRow → Tables
  with_options t rows = record t { options = rows }

  put_option-fresh :
      (o : MenuOption) (t : Tables)
      → All (IsBelow o.index) t.options
      → put_option (option_row id chat_jid o) t
        ≡ some (with_options t (t.options ++ option_row id chat_jid o ∷ []))
  unfolding put_option insert
  put_option-fresh o t h =
      rw
        (
          first-None_of_All (has_key option_key (option_key (option_row id chat_jid o))) t.options
              (misses o t.options h),
          put_option,
          insert,
        )
        refl

  -- The options of one menu go behind the rows that are there.
  put_options-runs :
      (n : ℕ) (opts : List MenuOption) (t : Tables)
      → IsNumbered n opts
      → All (IsBelow n) t.options
      → exec_all (put_options id chat_jid opts) (sound t)
        ≡ (sound (with_options t (t.options ++ rows_of opts)), true)
  unfolding exec_all
  put_options-runs n [] t h below =
      ap (λ rows. (sound (with_options t rows), true)) (sym (append-nil t.options))
  put_options-runs n (o ∷ opts) t (at, h) below =
      let r : OptionRow = option_row id chat_jid o in
      let next : Tables = with_options t (t.options ++ r ∷ []) in
      exec_all-runs (put_option r) (put_options id chat_jid opts) (sound t) (sound next)
        (exec-runs (put_option r) (sound t) next refl (put_option-fresh o t (rw at below)))
      ∙ put_options-runs (suc n) opts next h (
          All-append (IsBelow (suc n)) t.options (r ∷ []) (IsBelow-suc n t.options below)
            (inr (omega arith), tt))
      ∙ ap (λ rows. (sound (with_options t rows), true))
          (append_assoc t.options (r ∷ []) (rows_of opts))

  rows-owned : (opts : List MenuOption) → All (λ r. owned r ≡ true) (rows_of opts)
  rows-owned [] = tt
  rows-owned (o ∷ opts) = (same_refl {K = Text × Text} (id, chat_jid), rows-owned opts)

  -- A numbered menu is in the order of its numbers.
  above :
      (o : MenuOption) (n : ℕ) (opts : List MenuOption)
      → o.index ≤ n
      → IsNumbered n opts
      → All (λ r. by_index (option_row id chat_jid o) r ≡ true) (rows_of opts)
  above o n [] less h = tt
  above o n (p ∷ opts) less (at, h) = (ground arith, above o (suc n) opts (omega arith) h)

  rows-IsOrdered :
      (n : ℕ) (opts : List MenuOption) → IsNumbered n opts → IsOrdered by_index (rows_of opts)
  rows-IsOrdered n [] h = tt
  rows-IsOrdered n (o ∷ opts) (at, h) =
      (above o (suc n) opts (omega arith) h, rows-IsOrdered (suc n) opts h)

  options-rows : (opts : List MenuOption) → map (λ r. r.option) (rows_of opts) ≡ opts
  options-rows [] = refl
  options-rows (o ∷ opts) = ap (λ os. o ∷ os) (options-rows opts)

  -- The rows of the message are those of its last menu.
  abbrev pub stored : List MenuOption → Tables → Tables
  stored opts t = with_options t (delete owned t.options ++ rows_of opts)

  options_of-stored :
      (n : ℕ) (opts : List MenuOption) (t : Tables)
      → IsNumbered n opts
      → options_of id chat_jid (stored opts t) ≡ opts
  unfolding options_of
  options_of-stored n opts t h =
      let chosen : select owned (delete owned t.options ++ rows_of opts) ≡ rows_of opts =
        select-append owned (delete owned t.options) (rows_of opts)
        ∙ ap (λ rows. rows ++ select owned (rows_of opts)) (select-delete owned t.options)
        ∙ select-All owned (rows_of opts) (rows-owned opts) in
      ap (λ rows. map (λ r. r.option) (order_by by_index rows)) chosen
      ∙ ap (λ rows. map (λ r. r.option) rows)
          (order_by-IsOrdered by_index (rows_of opts) (rows-IsOrdered n opts h))
      ∙ options-rows opts

  others-IsBelow :
      (n : ℕ) (rows : List OptionRow) → All (λ r. owned r ≡ false) rows → All (IsBelow n) rows
  others-IsBelow n [] h = tt
  others-IsBelow n (r ∷ rows) (hr, h) = (inl hr, others-IsBelow n rows h)

  pub store_menu_options-stored :
      (n : ℕ) (opts : List MenuOption) (t : Tables)
      → IsNumbered n opts
      → is_empty opts ≡ false
      → store_menu_options id chat_jid opts (sound t) ≡ (sound (stored opts t), true)
  unfolding store_menu_options drop_options
  store_menu_options-stored n opts t h some_options =
      let bare : Tables = with_options t (delete owned t.options) in
      rw some_options (
        transaction-runs (drop_options id chat_jid ∷ put_options id chat_jid opts) t (stored opts t)
          (exec_all-runs (drop_options id chat_jid) (put_options id chat_jid opts) (sound t)
              (sound bare) (exec-runs (drop_options id chat_jid) (sound t) bare refl refl)
            ∙ put_options-runs n opts bare h
                (others-IsBelow n (delete owned t.options) (delete-All_miss owned t.options))))

-- On an engine that refuses nothing, the menu of any message that has one is read back under the
-- message's ID, option by option as it was extracted, whatever was stored before.
pub store_menu_options-get_menu_options :
    (lib : Std) (msg : Inner) (id chat_jid : Text) (t : Tables)
    → is_empty id ≡ false
    → is_empty (extract_menu_options lib msg) ≡ false
    → (get_menu_options id chat_jid
        ((store_menu_options id chat_jid (extract_menu_options lib msg) (sound t)).0)).1
      ≡ ok (id, extract_menu_options lib msg)
unfolding get_menu_options read_options query
store_menu_options-get_menu_options lib msg id chat_jid t has_id has_menu =
    let opts : List MenuOption = extract_menu_options lib msg in
    let numbered : IsNumbered 1 opts = (extract_menu_options-IsMenu lib msg).numbered in
    ap (λ r. (get_menu_options id chat_jid r.0).1)
      (store_menu_options-stored id chat_jid 1 opts t numbered has_menu)
    ∙ rw (has_id, options_of-stored id chat_jid 1 opts t numbered, has_menu) refl
