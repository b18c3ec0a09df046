-- ===== src/Base/Log/Levels.antt =====
-- The text of levels and modes.
use shero.Common.{◌≡◌, refl}
use shero.Common.Bytes.{bytes_eq}
use shero.Base.Log.{
  LogLevel, unknow, debug, info, warn, error, fatal, level_to_string, string_to_level, LogMode,
  no_mode, stdout_mode, file_mode, both_mode, mode_to_string, string_to_mode,
}

-- Every level and every mode is read back from its text.
pub string_to_level-level_to_string :
    (level : LogLevel) (mode : LogMode)
    → (string_to_level (level_to_string level) ≡ level)
      × (string_to_mode (mode_to_string mode) ≡ mode)
unfolding string_to_level level_to_string string_to_mode mode_to_string bytes_eq
string_to_level-level_to_string level mode = (level_back level, mode_back mode)
  where
    level_back : (level : LogLevel) → string_to_level (level_to_string level) ≡ level
    level_back unknow = refl
    level_back debug = refl
    level_back info = refl
    level_back warn = refl
    level_back error = refl
    level_back fatal = refl

    mode_back : (mode : LogMode) → string_to_mode (mode_to_string mode) ≡ mode
    mode_back no_mode = refl
    mode_back stdout_mode = refl
    mode_back file_mode = refl
    mode_back both_mode = refl
