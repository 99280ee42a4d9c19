-- ===== src/Bridge/Instance.antt =====
-- The environment of an instance, whatsapp-bridge/instancia.go: its port, its folder and its label.
use whatsmcp.Base.{
  ℕ, ◌≤◌, Bool, ◌||◌, Option, none, some, ◌++◌, Text, codes, is_empty, trim_space, ltb, arith,
  by_arms, if◌then◌else◌,
}

-- `strconv.Atoi`; `none` is an error or a negative number. The folder: `filepath.Abs`,
-- `os.MkdirAll` without an error, and the folder of the executable.
pub record Host : Type 0 where
  pub atoi : Text → Option ℕ
  pub abs : Text → Option Text
  pub mkdir_all : Text → Bool
  pub executable_dir : Option Text

abbrev pub default_port : ℕ
default_port = 8080

abbrev pub valid_port : Option ℕ → ℕ
valid_port none = default_port
valid_port (some p) = if ltb p 1 || ltb 65535 p then default_port else p

abbrev dir_or_dot : Option Text → Text
dir_or_dot none = codes "."
dir_or_dot (some d) = d

module _ (host : Host) where
  -- From `WA_BRIDGE_PORT`.
  unfoldable pub bridge_port : Text → ℕ
  unfolding trim_space
  bridge_port raw =
      let trimmed = trim_space raw in
      if is_empty trimmed then default_port else valid_port (host.atoi trimmed)

  abbrev pub made : Option Text → Text
  made none = dir_or_dot host.executable_dir
  made (some d) = if host.mkdir_all d then d else dir_or_dot host.executable_dir

  -- From `WA_BRIDGE_DATA`.
  unfoldable pub data_dir : Text → Text
  unfolding trim_space
  data_dir raw =
      let trimmed = trim_space raw in
      if is_empty trimmed then dir_or_dot host.executable_dir else made (host.abs trimmed)

  valid_port_range : (p : Option ℕ) → (1 ≤ valid_port p) × (valid_port p ≤ 65535)
  valid_port_range none = (omega arith, omega arith)
  valid_port_range (some p) = ground arith

  -- Whatever the environment holds, the port is one that can be listened on.
  bridge_port_range : (raw : Text) → (1 ≤ bridge_port raw) × (bridge_port raw ≤ 65535)
  unfolding bridge_port
  bridge_port_range raw =
      by_arms (λ p. (1 ≤ p) × (p ≤ 65535)) (is_empty (trim_space raw)) default_port
        (valid_port (host.atoi (trim_space raw))) (λ _. (omega arith, omega arith))
        (λ _. valid_port_range (host.atoi (trim_space raw)))

-- `WA_BRIDGE_NAME` and a suffix, behind the name of the program.
unfoldable pub tray_label : Text → Text → Text
unfolding trim_space
tray_label raw_name suffix =
    let name = trim_space raw_name in
    let base =
      if is_empty name
      then codes "WhatsApp Bridge"
      else codes "WhatsApp Bridge" ++ (codes " [" ++ (name ++ codes "]")) in
    if is_empty suffix then base else base ++ (codes " - " ++ suffix)
