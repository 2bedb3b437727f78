-- ===== src/Log/Runs.antt =====
-- Runs of the loggers: tests, and theorems at concrete arguments.
use exhy.Common.{set, get_elem?, ℕ, ◌≡◌, refl, List, [], ◌∷◌, none, some, false, arith}
use exhy.Log.{
  Bytes, codes, LogEvent, new_log_event, info, warn, level_to_string, item_format, format_items,
  make_item,
}
use exhy.Log.Pattern.{
  LogFormatter, new_log_formatter, format, parse_loop, make_items, add_parts, add_part, flush,
  push_item, scan_name, scan_fmt, ends_name, is_alpha,
}
use exhy.Log.Pattern.Scan.{Token, plain, named, formatted, print, IsPattern}
use exhy.Log.Pattern.Print.{printed, format-print}
use exhy.Log.Pattern.Ends.{new_log_formatter-terminates}
use exhy.Log.Loggers.{
  Store, Logger, log, set_formatter, LoggerManager, get_logger, add_logger, new_logger,
  default_pattern,
}
use exhy.Log.Loggers.Wf.{IsValid, add, step}
use exhy.Log.Loggers.Calls.{step-IsValid, set_formatter-appenders}
use exhy.Log.Loggers.Manager.{
  IsManaged, IsServed, root_manager, get_logger-IsServed, add_logger-IsManaged,
  new_logger_manager-IsManaged,
}
use exhy.Log.Loggers.Delivery.{log-receivers, all_written, receivers}
use exhy.Log.Loggers.Config.{
  LogDefine, find_define, on_logger_conf_changed, on_logger_conf_changed-unchanged,
}

abbrev clock : Bytes → ℕ → Bytes
clock fmt time = fmt

abbrev hello : LogEvent
hello =
    record (new_log_event "root" info (codes "main.cpp") 30 12 7 3 1_700_000_000 (codes "work")) {
      content = codes "hi";
    }

abbrev tokens : List Token
tokens =
    plain (codes "[")
    ∷ named (codes "p")
    ∷ plain (codes "] ")
    ∷ formatted (codes "d") (codes "%Y")
    ∷ named (codes "q")
    ∷ named (codes "m")
    ∷ []

-- A pattern as the code reads it: the second '%' of "%%" begins an item.
percent_run :
    (f : LogFormatter) × (new_log_formatter (codes "100%% %m") ≡ some f)
    × (format clock f info hello ≡ codes "100%<<error_format %>> hi")
unfolding new_log_formatter parse_loop format make_items add_parts add_part flush push_item
    scan_name scan_fmt ends_name is_alpha make_item format_items item_format level_to_string
percent_run = (_, refl, refl)

tokens-IsPattern : IsPattern tokens
unfolding is_alpha ends_name
tokens-IsPattern = (
  (refl, tt),
  (
    (λ p. cc),
    (refl, tt),
    refl,
    (
      (refl, (refl, tt)),
      (
        (refl, tt),
        (refl, (refl, tt)),
        ((λ p. cc), (refl, tt), refl, ((λ p. cc), (refl, tt), tt, tt)),
      ),
    ),
  ),
)

format-print_example :
    (f : LogFormatter) × (new_log_formatter (print tokens) ≡ some f)
    × (format clock f info hello ≡ printed clock info hello tokens)
format-print_example = format-print clock info hello tokens tokens-IsPattern

new_log_formatter-terminates_example :
    (f : LogFormatter) × (new_log_formatter default_pattern ≡ some f)
new_log_formatter-terminates_example = new_log_formatter-terminates default_pattern

manager-IsManaged : IsManaged root_manager
manager-IsManaged = new_logger_manager-IsManaged.1

get_logger-IsServed_example : IsServed "system" (get_logger "system" root_manager)
get_logger-IsServed_example = get_logger-IsServed "system" root_manager manager-IsManaged

-- A logger made later has no appender: its events go to the root's.
abbrev two : LoggerManager
two = add_logger "system" root_manager

two-IsManaged : IsManaged two
two-IsManaged = add_logger-IsManaged "system" root_manager manager-IsManaged

abbrev system : Logger
system = record (new_logger "system") { root = some 0 }

log-receivers_example :
    log clock 2 two.store 1 warn hello
    ≡ some (all_written clock warn hello two.store.appenders (receivers two.store warn system))
log-receivers_example = log-receivers clock warn hello two 1 system two-IsManaged refl

receivers_run : receivers two.store warn system ≡ 0 ∷ 1 ∷ []
unfolding new_logger
receivers_run = refl

step-IsValid_example : (t : Store) × (step (add 1 0) two.store ≡ some t) × IsValid t
step-IsValid_example =
    step-IsValid two.store two-IsManaged.valid (add 1 0) (omega arith, omega arith)

abbrev brief : LogFormatter
brief = record { pattern = []; items = []; error = false }

set_formatter-appenders_example :
    (x : Logger) × (t : Store) × (get_elem? two.store.loggers 0 ≡ some x)
    × (set_formatter 0 (some brief) two.store ≡ some t)
    × (t.loggers ≡ set two.store.loggers 0 (record x { formatter = some brief }))
    × (t.appenders ≡ two.store.appenders)
set_formatter-appenders_example =
    set_formatter-appenders two.store 0 brief two-IsManaged.valid (omega arith)

abbrev define : LogDefine
define = record { name = "system"; level = 3; formatter = []; appenders = [] }

abbrev root_define : LogDefine
root_define = record { name = "root"; level = 2; formatter = []; appenders = [] }

on_logger_conf_changed-unchanged_example :
    on_logger_conf_changed (define ∷ []) (root_define ∷ define ∷ []) two ≡ none
unfolding find_define
on_logger_conf_changed-unchanged_example =
    on_logger_conf_changed-unchanged (root_define ∷ []) [] (define ∷ []) define define two refl refl
