-- ===== src/Tests/Wires.antt =====
-- Runs of the client's side of wabridge and of its server.
use whatsmcp.Base.{
  ℕ, ◌≡◌, refl, arith, Bool, true, false, ◌||◌, none, some, List, [], ◌∷◌, ◌++◌, ok, Text, codes,
  text_eq, text_eq_refl, is_empty,
}
use whatsmcp.Sql.{Db}
use whatsmcp.Bridge.Std.{ascii_std}
use whatsmcp.Bridge.Rest.{HttpCall, SendMessageRequest}
use whatsmcp.Domain.Jid.{to_string}
use whatsmcp.Wabridge.Repos.{WaTables, WaMessageRow, media_in, find_media}
use whatsmcp.Wabridge.Features.{WaBus}
use whatsmcp.Wabridge.Send.{WaSender, answered}
use whatsmcp.Wabridge.Download.{Host, DownloadResult, download}
use whatsmcp.Wabridge.Download.Laws.{WritesStay, FilesStay, Asked, downloads, download_shared}
use whatsmcp.Wabridge.Rest.{World, WaServer, serve_log}
use whatsmcp.Wabridge.Rest.View.{ShowsEnd, log_at, serve_log-writes}
use whatsmcp.Wabridge.Logs.{Disk, bytes_of, writes}
use whatsmcp.Wabridge.Logs.Kept.{logging}
use whatsmcp.Wabridge.Logs.Silent.{silent, rotation_silences}
use whatsmcp.Wabridge.Contacts.{ContactTables, resolve, lid_to_phone, contact_name}
use whatsmcp.Wabridge.Contacts.Hidden.{sound, lid_of, pn_of, phone_of, resolve-lid_of}
use whatsmcp.Wabridge.Queue.{history_queued, queued, raw_label_edit, Adapter, Turn, arrival, round}
use whatsmcp.Tests.{some_floats}
use whatsmcp.Tests.Layers.{empty_db}

-- The state of the disk is the paths of its files.
abbrev is_file : Text → List Text → Bool
is_file p [] = false
is_file p (q ∷ qs) = text_eq p q || is_file p qs

abbrev some_host : Host (List Text)
some_host = record {
  join = λ a b. a ++ (codes "/" ++ b);
  abs = λ p. some (codes "/" ++ p);
  stat = is_file;
  mkdir_all = λ _ files. (files, true);
  write_file = λ p _ files. (p ∷ files, true);
  download = λ _. some (1 ∷ []);
}

some_host-WritesStay : WritesStay some_host
some_host-WritesStay p bytes files h = rw (text_eq_refl p) refl

-- Two documents of one name in one chat.
abbrev document_row : Text → WaMessageRow
document_row id = record {
  id = id;
  chat_jid = codes "c";
  sender = codes "s";
  content = [];
  timestamp = 1;
  is_from_me = false;
  media_type = codes "document";
  filename = codes "a.pdf";
  url = id;
  media_key = 1 ∷ [];
  file_sha256 = 2 ∷ [];
  file_enc_sha256 = 3 ∷ [];
  file_length = 4;
  direct_path = codes "/v";
}

abbrev two_documents : Db WaTables
two_documents = record empty_db {
  tables = record empty_db.tables {
    messages = document_row (codes "m") ∷ document_row (codes "n") ∷ [];
  };
}

abbrev document_file : DownloadResult
document_file = record {
  kind = codes "document";
  filename = codes "a.pdf";
  path = codes "/b/c/a.pdf";
}

finds_first :
    (find_media (codes "m") (codes "c") two_documents).1 ≡ ok (media_in (document_row (codes "m")))
unfolding find_media text_eq
finds_first = refl

finds_second :
    (find_media (codes "n") (codes "c") two_documents).1 ≡ ok (media_in (document_row (codes "n")))
unfolding find_media text_eq
finds_second = refl

downloads_first :
    (download some_host (codes "b") (codes "m") (codes "c") two_documents []).1.1 ≡ ok document_file
unfolding download text_eq
downloads_first = refl

some_host-FilesStay : FilesStay some_host
some_host-FilesStay = (λ _ _ _ h. h, λ p here bytes files h. ground (arith, h))

-- A download that fails comes in between.
abbrev between : List (Asked some_host (codes "b"))
between = (codes "z", codes "c", two_documents) ∷ []

abbrev behind : List Text
behind =
    downloads some_host (codes "b") between
      ((download some_host (codes "b") (codes "m") (codes "c") two_documents []).1.0)

download_shared_example :
    (download some_host (codes "b") (codes "n") (codes "c") two_documents behind).1
    ≡ (behind, ok document_file)
download_shared_example =
    download_shared some_host (codes "b") (codes "c") (codes "m") (codes "n")
      (media_in (document_row (codes "m"))) (media_in (document_row (codes "n"))) two_documents
      two_documents [] document_file between some_host-WritesStay some_host-FilesStay finds_first
      finds_second refl downloads_first

abbrev some_sender : WaSender
some_sender = record {
  lib = ascii_std;
  connected = true;
  parse_jid = λ s. some (record { user = s; server = codes "s.whatsapp.net" });
  read_file = λ _. none;
  base = λ p. p;
  upload = λ _ _. none;
  floats = some_floats;
  spare = [];
  delivers = λ _ _. answered;
}

abbrev wa_server : WaServer (List Text)
wa_server = record {
  sender = some_sender;
  host = some_host;
  base_dir = codes "b";
  has_session = true;
  fetches_app_state = true;
  log_file = none;
}

abbrev greeting : HttpCall SendMessageRequest
greeting = record {
  post = true;
  body = some (record { recipient = codes "5511"; message = codes "oi"; media_path = [] });
}

abbrev some_world : World (List Text)
some_world = record { db = two_documents; disk = []; outbox = [] }

-- Two lines in a log of at most four bytes.
abbrev good_disk : Disk
good_disk = record { opens = true; stats = true; renames = true; room = 9 }

abbrev two_lines : List (Disk × List ℕ)
two_lines = (good_disk, codes "ab\n") ∷ (good_disk, codes "cd\n") ∷ []

serve_log-writes_example :
    ShowsEnd 2
      (codes "ab\ncd\n")
      (bytes_of (writes two_lines (logging 4 [] none)).current)
      (serve_log 2 (log_at (writes two_lines (logging 4 [] none))))
serve_log-writes_example = serve_log-writes 2 4 two_lines [] none (
  (refl, refl, refl, omega arith, omega arith),
  ((refl, refl, refl, omega arith, omega arith), tt),
)

rotation_silences_example :
    writes
      ((record good_disk { opens = false }, codes "cd\n") ∷ two_lines)
      (logging 4 (codes "ab\n") none)
    ≡ silent 4 none (some (codes "ab\n"))
rotation_silences_example =
    rotation_silences 4 (codes "ab\n") (codes "cd\n") none (record good_disk { opens = false })
      two_lines refl refl (omega arith) (omega arith, (omega arith, tt))

-- A hidden user with a number and a contact.
abbrev some_contacts : ContactTables
some_contacts = record {
  lid_map = record { lid = codes "77"; pn = some (codes "5511") } ∷ [];
  contacts =
      record {
        their_jid = codes "5511@s.whatsapp.net";
        full_name = none;
        business_name = some (codes " ");
        push_name = some (codes "Ana");
        first_name = none;
      }
      ∷ [];
}

has_number : is_empty (phone_of (codes "77") some_contacts) ≡ false
unfolding lid_to_phone text_eq
has_number = refl

has_name :
    is_empty (
      (contact_name
        (to_string (pn_of (phone_of (codes "77") some_contacts)))
        (sound some_contacts)).1)
    ≡ false
unfolding lid_to_phone contact_name to_string text_eq
has_name = refl

resolve-lid_of_example :
    (resolve (lid_of (codes "77")) (sound some_contacts)).1
    ≡ (resolve (pn_of (phone_of (codes "77") some_contacts)) (sound some_contacts)).1
resolve-lid_of_example = resolve-lid_of (codes "77") some_contacts has_number has_name

abbrev no_bus : WaBus
no_bus = []

-- A history, a label, and the worker's round.
abbrev two_turns : List Turn
two_turns =
    arrival (queued (history_queued []))
    ∷ arrival (raw_label_edit (codes "1") (codes "new") 0 false)
    ∷ round
    ∷ []

abbrev idle : Adapter
idle = record { queue = []; db = empty_db }
