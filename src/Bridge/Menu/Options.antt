-- ===== src/Bridge/Menu/Options.antt =====
-- The options of a menu are numbered from 1 without a gap, and each is of a kind that has a reply.
use whatsmcp.Base.{
  ℕ, zero, suc, ◌+◌, ◌≡◌, refl, ◌⊎◌, inl, inr, Option, none, some, List, [], ◌∷◌, ◌++◌, All,
  All-append, Text, length, get_elem?, arith,
}
use whatsmcp.Bridge.Std.{Std}
use whatsmcp.Bridge.Proto.{
  Row, Section, ListMessage, Button, ButtonsMessage, HydratedButton, quick_reply, url_button,
  call_button, unset_button, HydratedTemplate, NativeButton, InteractiveMessage, body, Inner, nil,
  inner,
}
use whatsmcp.Bridge.Unwrap.{unwrap_message}
use whatsmcp.Bridge.Menu.{
  MenuOption, kind_list, kind_button, kind_template, kind_nativeflow, add, add_rows, add_sections,
  add_buttons, add_hydrated, add_native, list_block, buttons_block, template_block,
  interactive_block, options_of, extract_menu_options,
}

abbrev pub IsNumbered : ℕ → List MenuOption → Type 0
IsNumbered n [] = Unit
IsNumbered n (o ∷ opts) = (o.index ≡ n) × IsNumbered (suc n) opts

abbrev pub IsKnown : MenuOption → Type 0
IsKnown o =
    (o.kind ≡ kind_list)
    ⊎ (o.kind ≡ kind_button)
    ⊎ (o.kind ≡ kind_template)
    ⊎ (o.kind ≡ kind_nativeflow)

pub record IsMenu (out : List MenuOption) : Type 0 where
  pub numbered : IsNumbered 1 out
  pub known : All IsKnown out

IsNumbered-concat :
    (n : ℕ) (out : List MenuOption) (o : MenuOption)
    → IsNumbered n out
    → o.index ≡ n + length out
    → IsNumbered n (out ++ o ∷ [])
IsNumbered-concat n [] o _ h = (omega arith, tt)
IsNumbered-concat n (x ∷ out) o (hx, h) e = (hx, IsNumbered-concat (suc n) out o h (omega arith))

add-IsMenu :
    (out : List MenuOption) (kind id title desc section params : Text)
    → IsMenu out
    → (kind ≡ kind_list) ⊎ (kind ≡ kind_button) ⊎ (kind ≡ kind_template) ⊎ (kind ≡ kind_nativeflow)
    → IsMenu (add out kind id title desc section params)
unfolding add
add-IsMenu out kind id title desc section params m k = record {
  numbered = IsNumbered-concat 1 out _ m.numbered (omega arith);
  known = All-append IsKnown out _ m.known (k, tt);
}

add_rows-IsMenu :
    (section : Text) (rows : List Row) (out : List MenuOption)
    → IsMenu out
    → IsMenu (add_rows section rows out)
unfolding add_rows
add_rows-IsMenu section [] out m = m
add_rows-IsMenu section (r ∷ rows) out m =
    add_rows-IsMenu section rows _ (add-IsMenu out kind_list _ _ _ _ _ m (inl refl))

add_sections-IsMenu :
    (sections : List Section) (out : List MenuOption)
    → IsMenu out
    → IsMenu (add_sections sections out)
unfolding add_sections
add_sections-IsMenu [] out m = m
add_sections-IsMenu (s ∷ sections) out m =
    add_sections-IsMenu sections _ (add_rows-IsMenu s.title s.rows out m)

add_buttons-IsMenu :
    (buttons : List Button) (out : List MenuOption) → IsMenu out → IsMenu (add_buttons buttons out)
unfolding add_buttons
add_buttons-IsMenu [] out m = m
add_buttons-IsMenu (b ∷ buttons) out m =
    add_buttons-IsMenu buttons _ (add-IsMenu out kind_button _ _ _ _ _ m (inr (inl refl)))

add_hydrated-IsMenu :
    (buttons : List HydratedButton) (out : List MenuOption)
    → IsMenu out
    → IsMenu (add_hydrated buttons out)
unfolding add_hydrated
add_hydrated-IsMenu [] out m = m
add_hydrated-IsMenu (unset_button ∷ buttons) out m = add_hydrated-IsMenu buttons out m
add_hydrated-IsMenu (quick_reply id text ∷ buttons) out m =
    add_hydrated-IsMenu buttons _ (add-IsMenu out kind_template _ _ _ _ _ m (inr (inr (inl refl))))
add_hydrated-IsMenu (url_button url text ∷ buttons) out m =
    add_hydrated-IsMenu buttons _ (add-IsMenu out kind_template _ _ _ _ _ m (inr (inr (inl refl))))
add_hydrated-IsMenu (call_button phone text ∷ buttons) out m =
    add_hydrated-IsMenu buttons _ (add-IsMenu out kind_template _ _ _ _ _ m (inr (inr (inl refl))))

module _ (lib : Std) where
  add_native-IsMenu :
      (buttons : List NativeButton) (out : List MenuOption)
      → IsMenu out
      → IsMenu (add_native lib buttons out)
  unfolding add_native
  add_native-IsMenu [] out m = m
  add_native-IsMenu (b ∷ buttons) out m =
      add_native-IsMenu buttons _
        (add-IsMenu out kind_nativeflow _ _ _ _ _ m (inr (inr (inr refl))))

list_block-IsMenu :
    (l : Option ListMessage) (out : List MenuOption) → IsMenu out → IsMenu (list_block l out)
unfolding list_block
list_block-IsMenu none out m = m
list_block-IsMenu (some l) out m = add_sections-IsMenu l.sections out m

buttons_block-IsMenu :
    (b : Option ButtonsMessage) (out : List MenuOption) → IsMenu out → IsMenu (buttons_block b out)
unfolding buttons_block
buttons_block-IsMenu none out m = m
buttons_block-IsMenu (some b) out m = add_buttons-IsMenu b.buttons out m

template_block-IsMenu :
    (t : Option (Option HydratedTemplate)) (out : List MenuOption)
    → IsMenu out
    → IsMenu (template_block t out)
unfolding template_block
template_block-IsMenu none out m = m
template_block-IsMenu (some none) out m = m
template_block-IsMenu (some (some t)) out m = add_hydrated-IsMenu t.buttons out m

interactive_block-IsMenu :
    (lib : Std) (i : Option InteractiveMessage) (out : List MenuOption)
    → IsMenu out
    → IsMenu (interactive_block lib i out)
unfolding interactive_block
interactive_block-IsMenu lib none out m = m
interactive_block-IsMenu lib (some i) out m = add_native-IsMenu lib i.buttons out m

empty-IsMenu : IsMenu []
empty-IsMenu = record { numbered = tt; known = tt }

options_of-IsMenu : (lib : Std) (msg : Inner) → IsMenu (options_of lib msg)
unfolding options_of
options_of-IsMenu lib nil = empty-IsMenu
options_of-IsMenu lib (inner m) = interactive_block-IsMenu lib (body m).interactive _ (
    template_block-IsMenu (body m).template _
      (buttons_block-IsMenu (body m).buttons _ (list_block-IsMenu (body m).list [] empty-IsMenu)))

-- Whatever the message, its options are numbered 1, 2, … across the sections and the four formats,
-- and each is a list, button, template or native-flow option.
pub extract_menu_options-IsMenu : (lib : Std) (msg : Inner) → IsMenu (extract_menu_options lib msg)
unfolding extract_menu_options
extract_menu_options-IsMenu lib msg = options_of-IsMenu lib (unwrap_message msg)

-- The option at a position carries the next number.
pub index_of_get_elem? :
    (n i : ℕ) (opts : List MenuOption) (o : MenuOption)
    → IsNumbered n opts
    → get_elem? opts i ≡ some o
    → o.index ≡ n + i
index_of_get_elem? n i [] o h e = cc
index_of_get_elem? n zero (x ∷ opts) o (hx, h) e = ground arith
index_of_get_elem? n (suc i) (x ∷ opts) o (hx, h) e =
    omega (arith, index_of_get_elem? (suc n) i opts o h e)
