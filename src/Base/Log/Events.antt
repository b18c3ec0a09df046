-- ===== src/Base/Log/Events.antt =====
-- The `LOG_` macros, `LogEvent`, `LogEventWrap`, `Logger` and `LoggerManager` of shero/base/Log.h and
-- Log.cc: from a log statement to the batch that is pushed. The time, the process and the thread are
-- arguments, as texts. Each statement runs whole: the buffer of `Logger::log` is swapped out under its
-- mutex by the thread that filled it.
use shero.Common.{
  ℕ, ◌≡◌, refl, ap, ◌∙◌, sym, Bool, true, false, Option, none, some, List, [], ◌∷◌, ◌++◌,
  append-nil, append_assoc, if◌then◌else◌, Bool-cases, inl, inr,
}
use shero.Common.Bytes.{Bytes, codes, decimal}
use shero.Base.Log.{LogLevel, debug, fatal, unknow, info, warn, error, level_to_string, is_logged}
use shero.Base.Log.Queue.{State, push, initial}

pub record LogEvent : Type 0 where
  pub line : ℕ
  pub file : Bytes
  pub level : LogLevel

-- What the thread that logs is, and when.
pub record Origin : Type 0 where
  pub time : Bytes
  pub pid : Bytes
  pub tid : Bytes

abbrev pub in_brackets : Bytes → Bytes
in_brackets xs = b'[' ∷ (xs ++ (b']' ∷ 9 ∷ []))

-- `LogEvent::getSS`.
unfoldable pub event_prefix : Origin → LogEvent → Bytes
event_prefix o e =
    in_brackets o.time
    ++ (in_brackets (level_to_string e.level)
        ++ (in_brackets o.pid
            ++ (in_brackets o.tid
                ++ (in_brackets (codes "0") ++ in_brackets (e.file ++ (b':' ∷ decimal e.line))))))

-- The text that `LogEvent::log` passes on.
unfoldable pub event_line : Origin → LogEvent → Bytes → Bytes
unfolding event_prefix
event_line o e text = event_prefix o e ++ (text ++ (10 ∷ []))

pub record Logger : Type 0 where
  pub level : LogLevel
  pub buffer : List Bytes
  pub queue : State (List Bytes)

-- `Logger::Logger`.
unfoldable pub fresh_logger : LogLevel → Logger
fresh_logger level = record { level = level; buffer = []; queue = initial }

-- `Logger::log`.
unfoldable pub log : Bytes → Logger → Logger
log msg l = record l { buffer = []; queue = push (l.buffer ++ msg ∷ []) l.queue }

abbrev pub is_fatal : LogLevel → Bool
is_fatal fatal = true
is_fatal _ = false

-- `~LogEventWrap`: the logger, and whether the process exits.
unfoldable pub finish_event : Origin → LogEvent → Bytes → Logger → Logger × Bool
unfolding log event_line
finish_event o e text l = (log (event_line o e text) l, is_fatal e.level)

-- A `LOG_` statement. Without a logger nothing is done.
unfoldable pub log_statement : Origin → LogEvent → Bytes → Option Logger → Option Logger × Bool
unfolding finish_event is_logged
log_statement o e text none = (none, false)
log_statement o e text (some l) =
    let done = finish_event o e text l in
    if is_logged l.level e.level then (some done.0, done.1) else (some l, false)

-- `LoggerManager::LoggerManager`, with `m_isDefault`.
unfoldable pub new_manager : Bool → Option Logger
unfolding fresh_logger
new_manager true = some (fresh_logger debug)
new_manager false = none

-- `LoggerManager::reset`, built without BENCH_MARK.
unfoldable pub reset_manager : LogLevel → Option Logger → Option Logger
unfolding fresh_logger
reset_manager level old = some (fresh_logger level)

-- A statement that is run.
pub record Statement : Type 0 where
  pub origin : Origin
  pub event : LogEvent
  pub text : Bytes

-- Statements run one after the other, until the process exits.
unfoldable pub run_statements : List Statement → Option Logger → Option Logger × Bool
unfolding log_statement
run_statements [] l = (l, false)
run_statements (s ∷ ss) l =
    let (l', exits) = log_statement s.origin s.event s.text l in
    let rest = run_statements ss l' in if exits then (l', true) else rest

-- The lines that a level lets through, up to the first fatal one.
abbrev pub lines_of : LogLevel → List Statement → List (List Bytes)
lines_of level [] = []
lines_of level (s ∷ ss) =
    let rest = lines_of level ss in
    let line = event_line s.origin s.event s.text ∷ [] in
    if is_fatal s.event.level
    then line ∷ []
    else if is_logged level s.event.level
    then line ∷ rest
    else rest

abbrev pub has_fatal : List Statement → Bool
has_fatal [] = false
has_fatal (s ∷ ss) = let rest = has_fatal ss in if is_fatal s.event.level then true else rest

-- The batches that were pushed to the logger's thread.
abbrev pub pushed_to : Option Logger → List (List Bytes)
pushed_to none = []
pushed_to (some l) = l.queue.pushed

-- No level keeps a fatal event back.
fatal_is_logged : (a b : LogLevel) → is_fatal b ≡ true → is_logged a b ≡ true
unfolding is_logged
fatal_is_logged unknow fatal h = refl
fatal_is_logged debug fatal h = refl
fatal_is_logged info fatal h = refl
fatal_is_logged warn fatal h = refl
fatal_is_logged error fatal h = refl
fatal_is_logged fatal fatal h = refl
fatal_is_logged a unknow h = cc
fatal_is_logged a debug h = cc
fatal_is_logged a info h = cc
fatal_is_logged a warn h = cc
fatal_is_logged a error h = cc

-- The statements that are run on a logger whose buffer is empty push the lines of those whose level is
-- at least the logger's, each as a batch of its own, in order, up to the first fatal one, which is always
-- pushed; and the process exits exactly if there is a fatal one.
pub run_statements-lines_of :
    (ss : List Statement) (l : Logger)
    → l.buffer ≡ []
    → (pushed_to (run_statements ss (some l)).0 ≡ l.queue.pushed ++ lines_of l.level ss)
      × ((run_statements ss (some l)).1 ≡ has_fatal ss)
unfolding run_statements log_statement finish_event log push
run_statements-lines_of [] l e = (sym (append-nil l.queue.pushed), refl)
run_statements-lines_of (s ∷ ss) l e = elim (Bool-cases (is_fatal s.event.level)) [
  | inl f ↦
      rw (fatal_is_logged l.level s.event.level f, f)
        (ap (λ t. l.queue.pushed ++ (t ++ event_line s.origin s.event s.text ∷ []) ∷ []) e, refl)
  | inr f ↦ elim (Bool-cases (is_logged l.level s.event.level)) [
    | inr k ↦ rw (k, f) (run_statements-lines_of ss l e)
    | inl k ↦
        let line = event_line s.origin s.event s.text in
        let ih = run_statements-lines_of ss (log line l) refl in
        rw (k, f)
          (
            ih.0
                ∙ ap (λ t. (l.queue.pushed ++ (t ++ line ∷ []) ∷ []) ++ lines_of l.level ss) e
                ∙ append_assoc l.queue.pushed ((line ∷ []) ∷ []) (lines_of l.level ss),
            ih.1,
          )
  ]
]
