-- ===== src/Log/Loggers.antt =====
-- Logger, LogAppender and LoggerManager.
--
-- An appender and a logger are shared by pointers: the store keeps them by number, and a pointer is a number. A
-- formatter does not change after its constructor, so a pointer to it is its value, and `none` is the null pointer.
-- A level in a logger or an appender is the enumeration's number, since the code also casts 0xffffffff to one.
-- Every member runs under its mutex and is one step. What a run prints is the list of its writes.
pub mod Wf
pub mod Calls
pub mod Manager
pub mod Delivery
pub mod Config
use Prim.Native.String.{String}
use text.Mathlib.Text.{◌==◌ as str_eq}
use exhy.Common.{
  ℕ, zero, suc, Bool, true, false, List, [], ◌∷◌, ◌++◌, Option, none, some, leb, ltb, ◌==◌,
  if◌then◌else◌, ◌>>=◌, length, get_elem?, set,
}
use exhy.Log.{Bytes, codes, LogLevel, level_number, debugs, LogEvent}
use exhy.Log.Pattern.{LogFormatter, new_log_formatter, format}

pub data Target : Type 0 where
  stdout_target : Target
  file_target : Bytes → Target

pub record LogAppender : Type 0 where
  pub target : Target
  pub level : ℕ
  pub has_formatter : Bool
  pub formatter : Option LogFormatter

pub record Logger : Type 0 where
  pub name : String
  pub level : ℕ
  pub formatter : Option LogFormatter
  pub appenders : List ℕ
  pub root : Option ℕ

pub record Store : Type 0 where
  pub appenders : List LogAppender
  pub loggers : List Logger

abbrev pub default_pattern : Bytes
default_pattern = codes "%d{%Y-%m-%d%H:%M:%S}%T%t%T%N%T%F%T[%p]%T[%c]%T%f:%l%T%m%n"

unfoldable pub new_logger : String → Logger
new_logger name = record {
  name = name;
  level = level_number debugs;
  formatter = new_log_formatter default_pattern;
  appenders = [];
  root = none;
}

abbrev pub new_appender : Target → LogAppender
new_appender target = record {
  target = target;
  level = level_number debugs;
  has_formatter = false;
  formatter = none;
}

abbrev pub put_logger : ℕ → Logger → Store → Store
put_logger l x s = record s { loggers = set s.loggers l x }

abbrev pub put_appender : ℕ → LogAppender → Store → Store
put_appender a x s = record s { appenders = set s.appenders a x }

-- LogAppender::setFormatter.
unfoldable pub appender_set_formatter : Option LogFormatter → LogAppender → LogAppender
appender_set_formatter none x = record x { formatter = none; has_formatter = false }
appender_set_formatter (some f) x = record x { formatter = some f; has_formatter = true }

-- The test of addAppender.
unfoldable pub equip : Option LogFormatter → LogAppender → LogAppender
equip f x = elim x.formatter [ none ↦ appender_set_formatter f x | some g ↦ x ]

unfoldable pub add_appender : ℕ → ℕ → Store → Option Store
add_appender l a s = do
  x ← get_elem? s.loggers l
  y ← get_elem? s.appenders a
  some (
      put_logger l (record x { appenders = x.appenders ++ a ∷ [] })
        (put_appender a (equip x.formatter y) s))

-- The first of the list's pointers that is the one given.
unfoldable pub erase_first : ℕ → List ℕ → List ℕ
erase_first a [] = []
erase_first a (b ∷ bs) = let rest = erase_first a bs in if b == a then bs else b ∷ rest

unfoldable pub del_appender : ℕ → ℕ → Store → Option Store
del_appender l a s = do
  x ← get_elem? s.loggers l
  some (put_logger l (record x { appenders = erase_first a x.appenders }) s)

unfoldable pub clear_appenders : ℕ → Store → Option Store
clear_appenders l s = do
  x ← get_elem? s.loggers l
  some (put_logger l (record x { appenders = [] }) s)

-- The body of setFormatter's loop.
unfoldable pub pass_formatter : Option LogFormatter → LogAppender → LogAppender
pass_formatter f x = if x.has_formatter then x else record x { formatter = f }

unfoldable pub pass_to : Option LogFormatter → List ℕ → List LogAppender → Option (List LogAppender)
pass_to f [] xs = some xs
pass_to f (a ∷ rest) xs = do x ← get_elem? xs a; pass_to f rest (set xs a (pass_formatter f x))

unfoldable pub set_formatter : ℕ → Option LogFormatter → Store → Option Store
set_formatter l val s = do
  x ← get_elem? s.loggers l
  ys ← pass_to val x.appenders s.appenders
  some (record { appenders = ys; loggers = set s.loggers l (record x { formatter = val }) })

-- Logger::setFormatter on a pattern: one that has an error changes nothing.
unfoldable pub set_formatter_pattern : ℕ → Bytes → Store → Option Store
set_formatter_pattern l val s = do
  x ← get_elem? s.loggers l
  f ← new_log_formatter val
  some (if f.error then s else put_logger l (record x { formatter = some f }) s)

unfoldable pub set_level : ℕ → ℕ → Store → Option Store
set_level l val s = do x ← get_elem? s.loggers l; some (put_logger l (record x { level = val }) s)

-- What an appender sends to its stream.
pub record Write : Type 0 where
  pub target : Target
  pub text : Bytes

module _ (strftime : Bytes → ℕ → Bytes) where
  -- StdoutLogAppender::log and FileLogAppender::log.
  unfoldable pub appender_log : LogAppender → LogLevel → LogEvent → Option (List Write)
  appender_log x level event = elim (leb x.level (level_number level)) [
    | false ↦ some []
    | true ↦ do
      f ← x.formatter
      some (record { target = x.target; text = format strftime f level event ++ b'\n' ∷ [] } ∷ [])
  ]

  unfoldable pub log_to : List LogAppender → List ℕ → LogLevel → LogEvent → Option (List Write)
  log_to xs [] level event = some []
  log_to xs (a ∷ rest) level event = do
    x ← get_elem? xs a
    w ← appender_log x level event
    ws ← log_to xs rest level event
    some (w ++ ws)

  -- The body of Logger::log behind the test of the level; `up` is the call on m_root.
  unfoldable pub deliver :
      List LogAppender
      → Bool
      → List ℕ
      → Option (List Write)
      → LogLevel
      → LogEvent
      → Option (List Write)
  deliver xs false ids up level event = some []
  deliver xs true (a ∷ rest) up level event = log_to xs (a ∷ rest) level event
  deliver xs true [] up level event = up

  -- Logger::log; the fuel is the length of the chain of m_root.
  unfoldable pub log : ℕ → Store → ℕ → LogLevel → LogEvent → Option (List Write)
  log zero s l level event = none
  log (suc fuel) s l level event = do
    x ← get_elem? s.loggers l
    deliver s.appenders (ltb x.level (level_number level)) x.appenders
        (elim x.root [ none ↦ some [] | some r ↦ log fuel s r level event ]) level event

pub record LoggerManager : Type 0 where
  pub loggers : List (String × ℕ)
  pub root : ℕ
  pub store : Store

-- m_loggers.find.
unfoldable pub find : String → List (String × ℕ) → Option ℕ
find name [] = none
find name ((k, l) ∷ ls) = let rest = find name ls in if str_eq k name then some l else rest

-- The logger that getLogger makes, under the next number.
abbrev pub add_logger : String → LoggerManager → LoggerManager
add_logger name m = record {
  loggers = m.loggers ++ (name, length m.store.loggers) ∷ [];
  root = m.root;
  store = record {
    appenders = m.store.appenders;
    loggers = m.store.loggers ++ record (new_logger name) { root = some m.root } ∷ [];
  };
}

unfoldable pub get_logger : String → LoggerManager → ℕ × LoggerManager
get_logger name m = elim (find name m.loggers) [
  | some l ↦ (l, m)
  | none ↦ (length m.store.loggers, add_logger name m)
]

-- The two appenders of the constructor.
abbrev pub root_appenders : List LogAppender
root_appenders = new_appender stdout_target ∷ new_appender (file_target (codes "exhy/log.txt")) ∷ []

unfoldable pub new_logger_manager : Option LoggerManager
new_logger_manager = do
  s ← add_appender 0 0 (record { appenders = root_appenders; loggers = new_logger "root" ∷ [] })
  t ← add_appender 0 1 s
  some (record { loggers = ("root", 0) ∷ []; root = 0; store = t })
