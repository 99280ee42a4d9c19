-- ===== src/Wabridge/Pairing/Once.antt =====
-- What the user sees of a pairing.
use whatsmcp.Base.{
  ℕ, ◌≡◌, refl, sym, ap, ◌∙◌, Bool, true, false, ◌&&◌, Option, none, some, List, [], ◌∷◌, ◌++◌,
  Text, codes, text_eq, text_eq_iff, if◌then◌else◌,
}
use mathlib.Core.List.{append-nil}
use whatsmcp.Qr.{
  FileWrite, written, not_written, QrItem, code_item, success_item, timeout_item, error_item,
  other_item, PairingEnd, paired, Desk, set_file, open_viewer, remove_file,
}
use whatsmcp.Wabridge.Bus.{handlers_of, run_handlers, publish}
use whatsmcp.Wabridge.Bus.Laws.{publish-subscribe}
use whatsmcp.Wabridge.Features.{Event, event_name, qr_code_ready}
use whatsmcp.Wabridge.Pairing.{DeskBus, on_qr_code, new_tray, show_code, pair_from, pair_with_qr}

-- The images that were encoded and written, up to the end of the pairing: the first is shown.
abbrev pub saved_image : Option (List ℕ) → FileWrite → Option (List ℕ)
saved_image none w = none
saved_image (some png) written = some png
saved_image (some png) (not_written leaves) = none

abbrev pub or_else : Option (List ℕ) → Option (List ℕ) → Option (List ℕ)
or_else none o = o
or_else (some png) o = some png

module _ (encode : Text → Option (List ℕ)) where
  abbrev pub first_image : List QrItem → Option (List ℕ)
  first_image [] = none
  first_image (code_item code w ∷ items) = or_else (saved_image (encode code) w) (first_image items)
  first_image (other_item ∷ items) = first_image items
  first_image (_ ∷ items) = none

abbrev pub view_of : Text → Option (List ℕ) → List (Text × Option (List ℕ))
view_of path none = []
view_of path (some png) = (path, some png) ∷ []

-- The image is gone behind a pairing that removed it.
abbrev pub Removed : Text → Desk → PairingEnd → Type 0
Removed path d (paired true) = d.files path ≡ none
Removed path d _ = Unit

set_file_self : (path : Text) (o : Option (List ℕ)) (d : Desk) → (set_file path o d).files path ≡ o
unfolding set_file
set_file_self path o d = rw ((text_eq_iff path path).1 refl) refl

set_file_other :
    (path p : Text) (o : Option (List ℕ)) (d : Desk)
    → text_eq p path ≡ false
    → (set_file path o d).files p ≡ d.files p
unfolding set_file
set_file_other path p o d h = rw h refl

set_file-viewed :
    (path : Text) (o : Option (List ℕ)) (d : Desk) → (set_file path o d).viewed ≡ d.viewed
unfolding set_file
set_file-viewed path o d = refl

open_written-viewed :
    (path : Text) (png : List ℕ) (d : Desk)
    → (open_viewer path (set_file path (some png) d)).viewed ≡ d.viewed ++ view_of path (some png)
unfolding open_viewer
open_written-viewed path png d =
    rw (set_file_self path (some png) d, set_file-viewed path (some png) d) refl

module _ (encode : Text → Option (List ℕ)) (qr_path : Text) (bus : DeskBus)
    (opens : (d : Desk)
      → (publish Event Desk event_name bus (qr_code_ready qr_path) d).0
        ≡ open_viewer qr_path d) where
  -- What is still to be shown, where `first` is the next image.
  abbrev to_view : Bool → Option (List ℕ) → List (Text × Option (List ℕ))
  to_view published first = if published then [] else view_of qr_path first

  show_code-viewed :
      (published : Bool) (o : Option (List ℕ)) (w : FileWrite) (rest : Option (List ℕ)) (d : Desk)
      → let (now, shown) = show_code qr_path bus published o w d in
        shown.viewed ++ to_view now rest
        ≡ d.viewed ++ to_view published (or_else (saved_image o w) rest)
  unfolding show_code
  show_code-viewed published none w rest d = refl
  show_code-viewed true (some png) written rest d = refl
  show_code-viewed false (some png) written rest d =
      append-nil (
        (publish Event Desk event_name bus (qr_code_ready qr_path)
          (set_file qr_path (some png) d)).0.viewed)
      ∙ ap (λ t. t.viewed) (opens (set_file qr_path (some png) d))
      ∙ open_written-viewed qr_path png d
  show_code-viewed published (some png) (not_written leaves) rest d =
      rw (set_file-viewed qr_path leaves d) refl

  nothing_more : (published : Bool) (d : Desk) → d.viewed ≡ d.viewed ++ to_view published none
  nothing_more true d = sym (append-nil d.viewed)
  nothing_more false d = sym (append-nil d.viewed)

  remove_file-viewed :
      (removes : Bool) (d : Desk) → (remove_file removes qr_path d).viewed ≡ d.viewed
  unfolding remove_file
  remove_file-viewed true d = set_file-viewed qr_path none d
  remove_file-viewed false d = refl

  pair_from-viewed :
      (published : Bool) (items : List QrItem) (d : Desk)
      → (pair_from encode qr_path bus published items d).0.viewed
        ≡ d.viewed ++ to_view published (first_image encode items)
  unfolding pair_from
  pair_from-viewed published [] d = nothing_more published d
  pair_from-viewed published (code_item code w ∷ items) d =
      let (now, shown) = show_code qr_path bus published (encode code) w d in
      pair_from-viewed now items shown
      ∙ show_code-viewed published (encode code) w (first_image encode items) d
  pair_from-viewed published (success_item removes ∷ items) d =
      remove_file-viewed removes d ∙ nothing_more published d
  pair_from-viewed published (timeout_item ∷ items) d = nothing_more published d
  pair_from-viewed published (error_item ∷ items) d = nothing_more published d
  pair_from-viewed published (other_item ∷ items) d = pair_from-viewed published items d

  publish-files :
      (p : Text) (d : Desk)
      → (publish Event Desk event_name bus (qr_code_ready qr_path) d).0.files p ≡ d.files p
  unfolding open_viewer
  publish-files p d = ap (λ t. t.files p) (opens d)

  show_code-files :
      (published : Bool) (o : Option (List ℕ)) (w : FileWrite) (p : Text) (d : Desk)
      → text_eq p qr_path ≡ false
      → (show_code qr_path bus published o w d).1.files p ≡ d.files p
  unfolding show_code
  show_code-files published none w p d h = refl
  show_code-files true (some png) written p d h = set_file_other qr_path p (some png) d h
  show_code-files false (some png) written p d h =
      publish-files p (set_file qr_path (some png) d) ∙ set_file_other qr_path p (some png) d h
  show_code-files published (some png) (not_written leaves) p d h =
      set_file_other qr_path p leaves d h

  remove_file-files :
      (removes : Bool) (p : Text) (d : Desk)
      → text_eq p qr_path ≡ false
      → (remove_file removes qr_path d).files p ≡ d.files p
  unfolding remove_file
  remove_file-files true p d h = set_file_other qr_path p none d h
  remove_file-files false p d h = refl

  pair_from-files :
      (published : Bool) (items : List QrItem) (p : Text) (d : Desk)
      → text_eq p qr_path ≡ false
      → (pair_from encode qr_path bus published items d).0.files p ≡ d.files p
  unfolding pair_from
  pair_from-files published [] p d h = refl
  pair_from-files published (code_item code w ∷ items) p d h =
      let (now, shown) = show_code qr_path bus published (encode code) w d in
      pair_from-files now items p shown h ∙ show_code-files published (encode code) w p d h
  pair_from-files published (success_item removes ∷ items) p d h = remove_file-files removes p d h
  pair_from-files published (timeout_item ∷ items) p d h = refl
  pair_from-files published (error_item ∷ items) p d h = refl
  pair_from-files published (other_item ∷ items) p d h = pair_from-files published items p d h

  pair_from-Removed :
      (published : Bool) (items : List QrItem) (d : Desk)
      → let (after, end) = pair_from encode qr_path bus published items d in
        Removed qr_path after end
  unfolding pair_from remove_file
  pair_from-Removed published [] d = tt
  pair_from-Removed published (code_item code w ∷ items) d =
      let (now, shown) = show_code qr_path bus published (encode code) w d in
      pair_from-Removed now items shown
  pair_from-Removed published (success_item true ∷ items) d = set_file_self qr_path none d
  pair_from-Removed published (success_item false ∷ items) d = tt
  pair_from-Removed published (timeout_item ∷ items) d = tt
  pair_from-Removed published (error_item ∷ items) d = tt
  pair_from-Removed published (other_item ∷ items) d = pair_from-Removed published items d

-- The tray that was made on a bus where no one listened yet opens the viewer.
pub new_tray-publish :
    (b bus : DeskBus) (path : Text) (d : Desk)
    → new_tray true true true b ≡ some bus
    → handlers_of Event Desk event_name (codes "session.qr_ready") b ≡ []
    → (publish Event Desk event_name bus (qr_code_ready path) d).0 ≡ open_viewer path d
unfolding new_tray publish run_handlers event_name
new_tray-publish b bus path d made quiet =
    publish-subscribe event_name (codes "session.qr_ready") on_qr_code b bus (qr_code_ready path) d
      made
    ∙ rw quiet refl

-- A pairing opens the viewer once, on the file with the first code that is encoded and written, or
-- not at all where there is none before its end; no other file changes; and where it pairs and the
-- image can be removed, it is gone. No one but the tray listens for the code.
pub pair_with_qr-ShowsOnce :
    (encode : Text → Option (List ℕ)) (qr_path : Text) (b bus : DeskBus) (gets connects : Bool)
    (items : List QrItem) (d : Desk) (p : Text)
    → new_tray true true true b ≡ some bus
    → handlers_of Event Desk event_name (codes "session.qr_ready") b ≡ []
    → text_eq p qr_path ≡ false
    → let (after, end) = pair_with_qr encode qr_path bus gets connects items d in
      (after.viewed
        ≡ d.viewed ++ view_of qr_path (if gets && connects then first_image encode items else none))
      × (after.files p ≡ d.files p)
      × Removed qr_path after end
unfolding pair_with_qr
pair_with_qr-ShowsOnce encode qr_path b bus false connects items d p made quiet other =
    (sym (append-nil d.viewed), refl, tt)
pair_with_qr-ShowsOnce encode qr_path b bus true false items d p made quiet other =
    (sym (append-nil d.viewed), refl, tt)
pair_with_qr-ShowsOnce encode qr_path b bus true true items d p made quiet other =
    let opens = λ (e : Desk). new_tray-publish b bus qr_path e made quiet in
    (
      pair_from-viewed encode qr_path bus opens false items d,
      pair_from-files encode qr_path bus opens false items p d other,
      pair_from-Removed encode qr_path bus opens false items d,
    )
