-- ===== src/Base/Config/Settled.antt =====
-- The logger is only given settings that are whole.
use shero.Common.{
  ℕ, ◌*◌, ◌%◌, ◌^◌, ◌≡◌, refl, true, false, Option, none, some, Bool-cases, inl, inr,
}
use shero.Common.Bytes.{Bytes, codes, bytes_eq}
use shero.Base.Log.{string_to_mode, string_to_level}
use shero.Base.Config.{
  Config, is_no_mode, is_unknow, Loading, refused, accepted, throws, undefined, Yaml, yaml_level,
  yaml_mode, yaml_fields, load_yaml, Texts, xml_interval, xml_level, xml_max_size, xml_path,
  xml_mode, load_xml, Loaded, finished, threw, crashed, apply, load_suffix, after_last_dot,
  load_conf,
}

-- A known mode and a known level where the file was accepted; the flag as it was otherwise.
abbrev Whole : Config → Loading → Type 0
Whole c (refused c') = c'.loaded ≡ c.loaded
Whole c (accepted c') = (is_no_mode c'.mode ≡ false) × (is_unknow c'.level ≡ false)
Whole c throws = Unit
Whole c undefined = Unit

yaml_level-Whole :
    (o : Option Bytes) (c : Config) → is_no_mode c.mode ≡ false → Whole c (yaml_level o c)
unfolding yaml_level
yaml_level-Whole none c h = tt
yaml_level-Whole (some text) c h = elim (Bool-cases (is_unknow (string_to_level text))) [
  | inl p ↦ rw p refl
  | inr p ↦ rw p (h, p)
]

yaml_mode-Whole : (o l : Option Bytes) (c : Config) → Whole c (yaml_mode o l c)
unfolding yaml_mode
yaml_mode-Whole none l c = tt
yaml_mode-Whole (some text) l c = elim (Bool-cases (is_no_mode (string_to_mode text))) [
  | inl p ↦ rw p refl
  | inr p ↦ rw p (yaml_level-Whole l (record c { mode = string_to_mode text }) p)
]

yaml_fields-Whole :
    (path : Option Bytes) (size interval : Option ℕ) (y : Yaml) (c : Config)
    → Whole c (yaml_fields path size interval y c)
unfolding yaml_fields
yaml_fields-Whole none size interval y c = tt
yaml_fields-Whole (some path) none interval y c = tt
yaml_fields-Whole (some path) (some size) none y c = tt
yaml_fields-Whole (some path) (some size) (some interval) y c =
    yaml_mode-Whole y.log_mode y.log_level
      (record c { file_path = path; max_size = size * 1024 * 1024 % 2 ^ 32; interval = interval })

load_yaml-Whole : (o : Option Yaml) (c : Config) → Whole c (load_yaml o c)
unfolding load_yaml
load_yaml-Whole none c = refl
load_yaml-Whole (some y) c = yaml_fields-Whole y.log_path y.log_max_size y.log_sync_interval y c

module _ (atoi : Bytes → ℕ) where
  xml_interval-Whole :
      (o : Option Bytes) (c : Config)
      → is_no_mode c.mode ≡ false
      → is_unknow c.level ≡ false
      → Whole c (xml_interval atoi o c)
  unfolding xml_interval
  xml_interval-Whole none c h k = refl
  xml_interval-Whole (some text) c h k = (h, k)

  xml_level-Whole :
      (o : Option Bytes) (texts : Texts) (c : Config)
      → is_no_mode c.mode ≡ false
      → Whole c (xml_level atoi o texts c)
  unfolding xml_level
  xml_level-Whole none texts c h = refl
  xml_level-Whole (some text) texts c h = elim (Bool-cases (is_unknow (string_to_level text))) [
    | inl p ↦ rw p refl
    | inr p ↦ rw p (
        xml_interval-Whole (texts (codes "log_sync_interval"))
          (record c { level = string_to_level text }) h p)
  ]

  xml_max_size-Whole :
      (o : Option Bytes) (texts : Texts) (c : Config)
      → is_no_mode c.mode ≡ false
      → Whole c (xml_max_size atoi o texts c)
  unfolding xml_max_size
  xml_max_size-Whole none texts c h = refl
  xml_max_size-Whole (some text) texts c h =
      xml_level-Whole (texts (codes "log_level")) texts
        (record c { max_size = atoi text * 1024 * 1024 % 2 ^ 32 }) h

  xml_path-Whole :
      (o : Option Bytes) (texts : Texts) (c : Config)
      → is_no_mode c.mode ≡ false
      → Whole c (xml_path atoi o texts c)
  unfolding xml_path
  xml_path-Whole none texts c h = refl
  xml_path-Whole (some text) texts c h =
      xml_max_size-Whole (texts (codes "log_max_size")) texts (record c { file_path = text }) h

  xml_mode-Whole :
      (o : Option Bytes) (texts : Texts) (c : Config) → Whole c (xml_mode atoi o texts c)
  unfolding xml_mode
  xml_mode-Whole none texts c = refl
  xml_mode-Whole (some text) texts c = elim (Bool-cases (bytes_eq text (codes "UNKNOW"))) [
    | inl p ↦ rw p refl
    | inr p ↦ elim (Bool-cases (is_no_mode (string_to_mode text))) [
      | inl q ↦ rw (p, q) refl
      | inr q ↦
          rw (p, q)
            (xml_path-Whole (texts (codes "log_path")) texts
              (record c { mode = string_to_mode text }) q)
    ]
  ]

  load_xml-Whole : (o : Option (Option Texts)) (c : Config) → Whole c (load_xml atoi o c)
  unfolding load_xml
  load_xml-Whole none c = tt
  load_xml-Whole (some none) c = tt
  load_xml-Whole (some (some texts)) c = xml_mode-Whole (texts (codes "log_mode")) texts c

-- Either the logger is left alone and the flag is as it was; or the logger is given what the
-- configuration then holds, with a known mode and a known level, and the flag is set.
abbrev pub IsSettled : Config → Loaded → Type 0
IsSettled c (finished c' none) = c'.loaded ≡ c.loaded
IsSettled c (finished c' (some settings)) =
    (settings ≡ c')
    × (c'.loaded ≡ true)
    × (is_no_mode c'.mode ≡ false)
    × (is_unknow c'.level ≡ false)
IsSettled c threw = Unit
IsSettled c crashed = Unit

apply-IsSettled : (c : Config) (l : Loading) → Whole c l → IsSettled c (apply c l)
unfolding apply
apply-IsSettled c (refused c') h = h
apply-IsSettled c (accepted c') h = (refl, refl, h.0, h.1)
apply-IsSettled c throws h = tt
apply-IsSettled c undefined h = tt

module _ (atoi : Bytes → ℕ) (yaml : Bytes → Option Yaml) (xml : Bytes → Option (Option Texts)) where
  load_suffix-IsSettled :
      (path : Bytes) (o : Option Bytes) (c : Config)
      → IsSettled c (load_suffix atoi yaml xml path o c)
  unfolding load_suffix
  load_suffix-IsSettled path none c = refl
  load_suffix-IsSettled path (some suffix) c = elim (Bool-cases (bytes_eq suffix (codes "yaml"))) [
    | inl p ↦ rw p (apply-IsSettled c (load_yaml (yaml path) c) (load_yaml-Whole (yaml path) c))
    | inr p ↦ elim (Bool-cases (bytes_eq suffix (codes "xml"))) [
      | inl q ↦
          rw (p, q)
            (apply-IsSettled c (load_xml atoi (xml path) c) (load_xml-Whole atoi (xml path) c))
      | inr q ↦ rw (p, q) refl
    ]
  ]

  -- Whatever the file holds, `LoadConf` that ends without an exception or a null pointer either leaves
  -- the logger alone, or gives it the settings the configuration then has, with a known mode and level.
  pub load_conf-IsSettled :
      (path : Bytes) (c : Config) → IsSettled c (load_conf atoi yaml xml path c)
  unfolding load_conf
  load_conf-IsSettled path c = load_suffix-IsSettled path (after_last_dot path) c
