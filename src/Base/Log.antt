-- ===== src/Base/Log.antt =====
-- shero/base/Log.h and Log.cc: levels and modes as text, and the logger's thread, which takes batches
-- of messages off a queue and writes them. The date, and what `ftell` and `fopen` give, are arguments.
pub mod Levels
pub mod Files
pub mod Queue
pub mod Events
use shero.Common.{
  ℕ, suc, Bool, true, false, not, ◌||◌, Option, none, some, List, [], ◌∷◌, ◌++◌, ltb, leb,
  if◌then◌else◌,
}
use shero.Common.Bytes.{Bytes, codes, bytes_eq, decimal}

-- `LogLevel::Level`.
pub data LogLevel : Type 0 where
  unknow debug info warn error fatal : LogLevel

abbrev pub level_number : LogLevel → ℕ
level_number unknow = 0
level_number debug = 1
level_number info = 2
level_number warn = 3
level_number error = 4
level_number fatal = 5

unfoldable pub level_to_string : LogLevel → Bytes
level_to_string unknow = codes "UNKNOW"
level_to_string debug = codes "DEBUG"
level_to_string info = codes "INFO"
level_to_string warn = codes "WARN"
level_to_string error = codes "ERROR"
level_to_string fatal = codes "FATAL"

-- The chain of comparisons, each with its two spellings.
unfoldable pub string_to_level : Bytes → LogLevel
string_to_level s =
    if bytes_eq s (codes "unknow") || bytes_eq s (codes "UNKNOW")
    then unknow
    else if bytes_eq s (codes "debug") || bytes_eq s (codes "DEBUG")
    then debug
    else if bytes_eq s (codes "info") || bytes_eq s (codes "INFO")
    then info
    else if bytes_eq s (codes "warn") || bytes_eq s (codes "WARN")
    then warn
    else if bytes_eq s (codes "error") || bytes_eq s (codes "ERROR")
    then error
    else if bytes_eq s (codes "fatal") || bytes_eq s (codes "FATAL")
    then fatal
    else unknow

-- `LogMode::Mode`.
pub data LogMode : Type 0 where
  no_mode stdout_mode file_mode both_mode : LogMode

unfoldable pub mode_to_string : LogMode → Bytes
mode_to_string stdout_mode = codes "STDOUT"
mode_to_string file_mode = codes "FILE"
mode_to_string both_mode = codes "BOTH"
mode_to_string no_mode = codes "UNKNOW"

unfoldable pub string_to_mode : Bytes → LogMode
string_to_mode s =
    if bytes_eq s (codes "STDOUT")
    then stdout_mode
    else if bytes_eq s (codes "FILE")
    then file_mode
    else if bytes_eq s (codes "BOTH")
    then both_mode
    else no_mode

-- The test of the `LOG_` macros, where there is a logger.
unfoldable pub is_logged : LogLevel → LogLevel → Bool
is_logged logger_level level = leb (level_number logger_level) (level_number level)

-- The files' part of `AsyncLogger`: `file` is the name that was opened.
pub record AsyncLogger : Type 0 where
  pub file_path : Bytes
  pub mode : LogMode
  pub max_size : ℕ
  pub no : ℕ
  pub date : Bytes
  pub reopen : Bool
  pub file : Option Bytes

pub data Effect : Type 0 where
  printed : Bytes → Effect
  opened : Bytes → Effect
  closed : Effect
  wrote : Bytes → Bytes → Effect

-- The constructor.
unfoldable pub new_logger : LogMode → Bytes → ℕ → AsyncLogger
new_logger mode file_path max_size = record {
  file_path = file_path;
  mode = mode;
  max_size = max_size;
  no = 0;
  date = [];
  reopen = true;
  file = none;
}

-- `ss << m_filePath << m_date << "_" << m_no << ".log"`.
unfoldable pub file_name : AsyncLogger → Bytes
file_name l = l.file_path ++ (l.date ++ (codes "_" ++ (decimal l.no ++ codes ".log")))

abbrev pub close_old : Option Bytes → List Effect
close_old none = []
close_old (some name) = closed ∷ []

abbrev pub has_file : Option Bytes → Bool
has_file none = false
has_file (some name) = true

-- A new day.
unfoldable pub new_date : Bytes → AsyncLogger → AsyncLogger × List Effect
new_date date l =
    if not (bytes_eq date l.date)
    then (record l { no = 0; date = date; reopen = true }, close_old l.file)
    else (l, [])

-- The opening of the file, where it is called for.
unfoldable pub open_file : AsyncLogger → AsyncLogger × List Effect
open_file l =
    if l.reopen || not (has_file l.file)
    then (record l { file = some (file_name l); reopen = false }, opened (file_name l) ∷ [])
    else (l, [])

-- The next file, where `ftell` is beyond the bound.
unfoldable pub rotate : ℕ → AsyncLogger → AsyncLogger × List Effect
rotate position l =
    let next = record l { no = suc l.no } in
    if ltb l.max_size position
    then (
      record next { file = some (file_name next); reopen = false },
      closed ∷ opened (file_name next) ∷ [],
    )
    else (l, [])

-- The loop of `fwrite`, to the file that is open.
unfoldable pub write_all : Option Bytes → List Bytes → List Effect
write_all none msg = []
write_all (some name) [] = []
write_all (some name) ([] ∷ msg) = write_all (some name) msg
write_all (some name) ((x ∷ xs) ∷ msg) = wrote name (x ∷ xs) ∷ write_all (some name) msg

unfoldable pub print_all : List Bytes → List Effect
print_all [] = []
print_all (i ∷ msg) = printed i ∷ print_all msg

abbrev pub is_file_mode : LogMode → Bool
is_file_mode file_mode = true
is_file_mode _ = false

abbrev pub is_stdout_mode : LogMode → Bool
is_stdout_mode stdout_mode = true
is_stdout_mode _ = false

-- What a round of `mainLoop` does with its batch, where every `fopen` succeeds, as it asserts.
unfoldable pub write_batch : Bytes → ℕ → List Bytes → AsyncLogger → AsyncLogger × List Effect
unfolding new_date open_file rotate write_all
write_batch date position msg l =
    let (dated, e1) = new_date date l in
    let (ready, e2) = open_file dated in
    let (rotated, e3) = rotate position ready in
    (rotated, e1 ++ (e2 ++ (e3 ++ write_all rotated.file msg)))

unfoldable pub log_batch : Bytes → ℕ → List Bytes → AsyncLogger → AsyncLogger × List Effect
unfolding write_batch print_all
log_batch date position msg l =
    let shown = if is_file_mode l.mode then [] else print_all msg in
    let (l', kept) = write_batch date position msg l in
    if is_stdout_mode l.mode then (l, shown) else (l', shown ++ kept)
