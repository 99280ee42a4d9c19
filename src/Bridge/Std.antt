-- ===== src/Bridge/Std.antt =====
-- What the bridge takes from Go's standard library and is not written out here, as one interface:
-- the case maps of `unicode`, `encoding/json` on a button's parameters, and the layouts of `time`.
use whatsmcp.Base.{ℕ, Option, none, Text, leb, ◌&&◌, if◌then◌else◌, ◌+◌, ◌-◌, [], ◌∷◌}

pub record Std : Type 0 where
  pub to_lower : ℕ → ℕ
  pub to_upper : ℕ → ℕ
  -- `json.Unmarshal` into a `map[string]any`: `none` is an error; a key's value, if it is a string.
  pub json_strings : Text → Option (Text → Option Text)
  -- `time.Unix(t, 0).Format("02/01/2006 15:04")`.
  pub format_event : ℕ → Text
  -- `stamp.Format("20060102_150405")`.
  pub format_stamp : ℕ → Text

-- A library for tests: ASCII case, no JSON, and times that print as nothing.
abbrev pub ascii_std : Std
ascii_std = record {
  to_lower = λ c. if leb b'A' c && leb c b'Z' then c + 32 else c;
  to_upper = λ c. if leb b'a' c && leb c b'z' then c - 32 else c;
  json_strings = λ _. none;
  format_event = λ _. b'T' ∷ [];
  format_stamp = λ _. b'S' ∷ [];
}
