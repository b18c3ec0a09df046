-- ===== src/Base/Config.antt =====
-- shero/base/Config.cc: the logger's settings from a file. What yaml-cpp and TinyXML make of the file is
-- an argument, and so is `atoi`, whose result, like `m_maxSize`, is the 32 bits of an int.
pub mod Settled
use shero.Common.{
  ℕ, ◌*◌, ◌%◌, ◌^◌, Bool, true, false, Option, none, some, List, [], ◌∷◌, ◌==◌, if◌then◌else◌,
}
use shero.Common.Bytes.{Bytes, codes, bytes_eq}
use shero.Base.Log.{
  LogMode, no_mode, stdout_mode, file_mode, both_mode, string_to_mode, LogLevel, unknow, debug,
  info, warn, error, fatal, string_to_level,
}

pub record Config : Type 0 where
  pub loaded : Bool  -- `m_init`
  pub mode : LogMode
  pub max_size : ℕ
  pub interval : ℕ
  pub level : LogLevel
  pub file_path : Bytes

-- The constructor.
unfoldable pub new_config : Config
new_config = record {
  loaded = false;
  mode = file_mode;
  max_size = 5 * 1024 * 1024;
  interval = 500;
  level = debug;
  file_path = codes "./";
}

abbrev pub is_no_mode : LogMode → Bool
is_no_mode no_mode = true
is_no_mode stdout_mode = false
is_no_mode file_mode = false
is_no_mode both_mode = false

abbrev pub is_unknow : LogLevel → Bool
is_unknow unknow = true
is_unknow debug = false
is_unknow info = false
is_unknow warn = false
is_unknow error = false
is_unknow fatal = false

-- What `LoadYaml` and `LoadXml` come to: `false`, `true`, an exception, or a null pointer that is
-- followed.
pub data Loading : Type 0 where
  refused : Config → Loading
  accepted : Config → Loading
  throws : Loading
  undefined : Loading

-- The fields of the log node in a YAML file; `none` where `as` throws.
pub record Yaml : Type 0 where
  pub log_path : Option Bytes
  pub log_max_size : Option ℕ
  pub log_sync_interval : Option ℕ
  pub log_mode : Option Bytes
  pub log_level : Option Bytes

unfoldable pub yaml_level : Option Bytes → Config → Loading
yaml_level none c = throws
yaml_level (some text) c =
    let c' = record c { level = string_to_level text } in
    if is_unknow (string_to_level text) then refused c' else accepted c'

unfoldable pub yaml_mode : Option Bytes → Option Bytes → Config → Loading
unfolding yaml_level
yaml_mode none level c = throws
yaml_mode (some text) level c =
    let c' = record c { mode = string_to_mode text } in
    if is_no_mode (string_to_mode text) then refused c' else yaml_level level c'

-- The fields up to the interval.
unfoldable pub yaml_fields : Option Bytes → Option ℕ → Option ℕ → Yaml → Config → Loading
unfolding yaml_mode
yaml_fields none size interval y c = throws
yaml_fields (some path) none interval y c = throws
yaml_fields (some path) (some size) none y c = throws
yaml_fields (some path) (some size) (some interval) y c =
    yaml_mode y.log_mode y.log_level
      (record c { file_path = path; max_size = size * 1024 * 1024 % 2 ^ 32; interval = interval })

-- `LoadYaml`; `none` where `LoadFile` throws.
unfoldable pub load_yaml : Option Yaml → Config → Loading
unfolding yaml_fields
load_yaml none c = refused c
load_yaml (some y) c = yaml_fields y.log_path y.log_max_size y.log_sync_interval y c

-- The texts of the elements below the log node; `none` where the element or its text is missing.
abbrev pub Texts : Type 0
Texts = Bytes → Option Bytes

module _ (atoi : Bytes → ℕ) where
  unfoldable pub xml_interval : Option Bytes → Config → Loading
  xml_interval none c = refused c
  xml_interval (some text) c = accepted (record c { interval = atoi text })

  unfoldable pub xml_level : Option Bytes → Texts → Config → Loading
  unfolding xml_interval
  xml_level none texts c = refused c
  xml_level (some text) texts c =
      let c' = record c { level = string_to_level text } in
      if is_unknow (string_to_level text)
      then refused c'
      else xml_interval (texts (codes "log_sync_interval")) c'

  unfoldable pub xml_max_size : Option Bytes → Texts → Config → Loading
  unfolding xml_level
  xml_max_size none texts c = refused c
  xml_max_size (some text) texts c =
      xml_level (texts (codes "log_level")) texts
        (record c { max_size = atoi text * 1024 * 1024 % 2 ^ 32 })

  unfoldable pub xml_path : Option Bytes → Texts → Config → Loading
  unfolding xml_max_size
  xml_path none texts c = refused c
  xml_path (some text) texts c =
      xml_max_size (texts (codes "log_max_size")) texts (record c { file_path = text })

  unfoldable pub xml_mode : Option Bytes → Texts → Config → Loading
  unfolding xml_path
  xml_mode none texts c = refused c
  xml_mode (some text) texts c =
      let c' = record c { mode = string_to_mode text } in
      if bytes_eq text (codes "UNKNOW")
      then refused c
      else if is_no_mode (string_to_mode text)
      then refused c'
      else xml_path (texts (codes "log_path")) texts c'

  -- `LoadXml`, on the log node below the root element. Neither pointer is checked before it is followed:
  -- a missing log node is only logged.
  unfoldable pub load_xml : Option (Option Texts) → Config → Loading
  unfolding xml_mode
  load_xml none c = undefined
  load_xml (some none) c = undefined
  load_xml (some (some texts)) c = xml_mode (texts (codes "log_mode")) texts c

-- What stands behind the last dot.
unfoldable pub after_last_dot : Bytes → Option Bytes
after_last_dot [] = none
after_last_dot (x ∷ xs) = elim (after_last_dot xs) [
  | some suffix ↦ some suffix
  | none ↦ if x == b'.' then some xs else none
]

-- What `LoadConf` comes to: with the settings that the logger was given, if any.
pub data Loaded : Type 0 where
  finished : Config → Option Config → Loaded
  threw : Loaded
  crashed : Loaded

-- Behind the loader.
unfoldable pub apply : Config → Loading → Loaded
apply c (refused c') = finished c' none
apply c (accepted c') = let done = record c' { loaded = true } in finished done (some done)
apply c throws = threw
apply c undefined = crashed

module _ (atoi : Bytes → ℕ) (yaml : Bytes → Option Yaml) (xml : Bytes → Option (Option Texts)) where
  unfoldable pub load_suffix : Bytes → Option Bytes → Config → Loaded
  unfolding apply load_yaml load_xml
  load_suffix path none c = finished c none
  load_suffix path (some suffix) c =
      if bytes_eq suffix (codes "yaml")
      then apply c (load_yaml (yaml path) c)
      else if bytes_eq suffix (codes "xml")
      then apply c (load_xml atoi (xml path) c)
      else finished c none

  -- `LoadConf`.
  unfoldable pub load_conf : Bytes → Config → Loaded
  unfolding load_suffix after_last_dot
  load_conf path c = load_suffix path (after_last_dot path) c
