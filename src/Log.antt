-- ===== src/Log.antt =====
-- exhy/exhy_log.h and exhy/exhy_log.cpp: levels, events, the items of a formatter and what each prints.
--
-- Text is the list of its bytes; a name is a native String, printed through `codes`. localtime_r with strftime is
-- the argument `strftime`; std::endl is the byte '\n'. m_line is __LINE__, never negative, and is on ℕ.
pub mod Levels
pub mod Pattern
pub mod Loggers
mod Runs
pub use exhy.Common.Text.{Bytes, codes}
use Prim.Native.String.{String}
use text.Mathlib.Text.{◌==◌ as str_eq}
use exhy.Common.Decimal.{decimal}
use exhy.Common.{
  ℕ, zero, suc, ◌+◌, ◌/◌, ◌%◌, Bool, true, false, List, [], ◌∷◌, ◌++◌, Option, none, some, ltb,
  ◌==◌, if◌then◌else◌,
}

pub data LogLevel : Type 0 where
  unknow debugs info warn error fatal : LogLevel

-- The numbers of the enumeration.
abbrev pub level_number : LogLevel → ℕ
level_number unknow = 0
level_number debugs = 1
level_number info = 2
level_number warn = 3
level_number error = 4
level_number fatal = 5

pub level_to_string : LogLevel → String
level_to_string debugs = "DEBUGs"
level_to_string info = "INFO"
level_to_string warn = "WARN"
level_to_string error = "ERROR"
level_to_string fatal = "FATAL"
level_to_string unknow = "UNKNOW"

pub level_from_string : String → LogLevel
level_from_string str =
    if str_eq str "DEBUGs"
    then debugs
    else if str_eq str "INFO"
    then info
    else if str_eq str "WARN"
    then warn
    else if str_eq str "ERROR"
    then error
    else if str_eq str "FATAL"
    then fatal
    else unknow

-- getContent is the text written to m_ss; logger_name is getLogger()->getName().
pub record LogEvent : Type 0 where
  pub file : Bytes
  pub line : ℕ
  pub elapse : ℕ
  pub thread_id : ℕ
  pub fiber_id : ℕ
  pub time : ℕ
  pub thread_name : Bytes
  pub content : Bytes
  pub logger_name : String
  pub level : LogLevel

-- The constructor names no member m_fiberId: it keeps its initializer.
pub new_log_event : String → LogLevel → Bytes → ℕ → ℕ → ℕ → ℕ → ℕ → Bytes → LogEvent
new_log_event logger level file line elapse thread_id fiber_id time thread_name = record {
  file = file;
  line = line;
  elapse = elapse;
  thread_id = thread_id;
  fiber_id = 0;
  time = time;
  thread_name = thread_name;
  content = [];
  logger_name = logger;
  level = level;
}

-- The subclasses of FormatItem that keep something keep it in the constructor.
pub data FormatItem : Type 0 where
  message_item level_item elapse_item thread_id_item fiber_id_item : FormatItem
  filename_item line_item new_line_item thread_name_item tab_item name_item : FormatItem
  date_time_item : Bytes → FormatItem
  string_item : Bytes → FormatItem

pub new_date_time_item : Bytes → FormatItem
new_date_time_item [] = date_time_item (codes "%Y-%m-%d %H:%M:%S")
new_date_time_item (c ∷ cs) = date_time_item (c ∷ cs)

module _ (strftime : Bytes → ℕ → Bytes) where
  pub item_format : FormatItem → LogLevel → LogEvent → Bytes
  item_format message_item level event = event.content
  item_format level_item level event = codes (level_to_string level)
  item_format elapse_item level event = decimal event.elapse
  item_format thread_id_item level event = decimal event.thread_id
  item_format fiber_id_item level event = decimal event.fiber_id
  item_format filename_item level event = event.file
  item_format line_item level event = decimal event.line
  item_format new_line_item level event = b'\n' ∷ []
  item_format thread_name_item level event = event.thread_name
  item_format tab_item level event = b'\t' ∷ []
  item_format name_item level event = codes event.logger_name
  item_format (date_time_item fmt) level event = strftime fmt event.time
  item_format (string_item s) level event = s

  pub format_items : List FormatItem → LogLevel → LogEvent → Bytes
  format_items [] level event = []
  format_items (i ∷ items) level event = item_format i level event ++ format_items items level event

-- What s_format_items makes for a name.
pub make_item : Bytes → Bytes → Option FormatItem
make_item [] fmt = none
make_item (c ∷ d ∷ cs) fmt = none
make_item (c ∷ []) fmt =
    if c == b'm'
    then some message_item
    else if c == b'p'
    then some level_item
    else if c == b'r'
    then some elapse_item
    else if c == b'c'
    then some name_item
    else if c == b't'
    then some thread_id_item
    else if c == b'n'
    then some new_line_item
    else if c == b'd'
    then some (new_date_time_item fmt)
    else if c == b'f'
    then some filename_item
    else if c == b'l'
    then some line_item
    else if c == b'T'
    then some tab_item
    else if c == b'F'
    then some fiber_id_item
    else if c == b'N'
    then some thread_name_item
    else none
