-- ===== src/Log/Loggers/Config.antt =====
-- LogDefine, and the listener that LogIniter puts on the configuration of the loggers.
--
-- A std::set of definitions is the list of its elements in order; find goes by operator<, which compares names. The
-- message that the listener logs first is left out: it goes to the root before anything changes.
use Prim.Native.String.{String}
use text.Mathlib.Text.{◌==◌ as str_eq}
use exhy.Common.{
  ℕ, ◌≡◌, refl, Bool, true, false, ◌&&◌, List, [], ◌∷◌, ◌++◌, Option, none, some, ◌==◌,
  if◌then◌else◌, ◌>>=◌, length, inl, inr, Option-cases,
}
use exhy.Log.{Bytes}
use exhy.Log.Loggers.{
  Target, stdout_target, file_target, Store, new_appender, add_appender, clear_appenders,
  set_formatter_pattern, set_level, LoggerManager, get_logger,
}

pub record LogAppenderDefine : Type 0 where
  pub kind : ℕ
  pub level : ℕ
  pub formatter : Bytes
  pub file : Bytes

pub record LogDefine : Type 0 where
  pub name : String
  pub level : ℕ
  pub formatter : Bytes
  pub appenders : List LogAppenderDefine

abbrev pub bytes_eq : Bytes → Bytes → Bool
bytes_eq [] [] = true
bytes_eq [] (d ∷ ds) = false
bytes_eq (c ∷ cs) [] = false
bytes_eq (c ∷ cs) (d ∷ ds) = c == d && bytes_eq cs ds

abbrev pub appender_define_eq : LogAppenderDefine → LogAppenderDefine → Bool
appender_define_eq a b =
    a.kind == b.kind
    && a.level == b.level
    && bytes_eq a.formatter b.formatter
    && bytes_eq a.file b.file

abbrev pub appenders_eq : List LogAppenderDefine → List LogAppenderDefine → Bool
appenders_eq [] [] = true
appenders_eq [] (b ∷ bs) = false
appenders_eq (a ∷ rest) [] = false
appenders_eq (a ∷ rest) (b ∷ bs) = appender_define_eq a b && appenders_eq rest bs

abbrev pub define_eq : LogDefine → LogDefine → Bool
define_eq a b =
    str_eq a.name b.name
    && a.level == b.level
    && bytes_eq a.formatter b.formatter
    && appenders_eq a.appenders b.appenders

unfoldable pub find_define : LogDefine → List LogDefine → Option LogDefine
find_define i [] = none
find_define i (d ∷ ds) =
    let rest = find_define i ds in if str_eq d.name i.name then some d else rest

abbrev in_store : (Store → Option Store) → LoggerManager → Option LoggerManager
in_store f m = do s ← f m.store; some (record m { store = s })

-- The variable `logger` after the test of the old value, null for a definition that is there unchanged.
unfoldable pub choose_logger : LogDefine → List LogDefine → LoggerManager → Option ℕ × LoggerManager
choose_logger i old m = elim (find_define i old) [
  | none ↦ let (l, n) = get_logger i.name m in (some l, n)
  | some d ↦ elim (define_eq i d) [
    | true ↦ (none, m)
    | false ↦ let (l, n) = get_logger i.name m in (some l, n)
  ]
]

-- The appender that a definition makes; a type that is neither leaves the pointer null.
abbrev define_target : LogAppenderDefine → Option Target
define_target a =
    if a.kind == 1
    then some (file_target a.file)
    else if a.kind == 2
    then some stdout_target
    else none

unfoldable pub add_defined : ℕ → List LogAppenderDefine → Store → Option Store
add_defined l [] s = some s
add_defined l (a ∷ rest) s = do
  target ← define_target a
  t ← add_appender l (length s.appenders) (record s {
    appenders = s.appenders ++ record (new_appender target) { level = a.level } ∷ [];
  })
  add_defined l rest t

unfoldable pub define_formatter : ℕ → Bytes → Store → Option Store
define_formatter l [] s = some s
define_formatter l (c ∷ cs) s = set_formatter_pattern l (c ∷ cs) s

-- The body of the loop over the new value; a call through the null pointer is undefined.
unfoldable pub configure : LogDefine → Option ℕ × LoggerManager → Option LoggerManager
configure i (none, m) = none
configure i (some l, m) =
    in_store
      (λ s0. do
        s1 ← set_level l i.level s0
        s2 ← define_formatter l i.formatter s1
        s3 ← clear_appenders l s2
        add_defined l i.appenders s3)
      m

unfoldable pub configure_all :
    List LogDefine → List LogDefine → LoggerManager → Option LoggerManager
configure_all [] old m = some m
configure_all (i ∷ is) old m = do n ← configure i (choose_logger i old m); configure_all is old n

-- The loop over the old value: a logger that is gone hands on nothing.
unfoldable pub retire_all : List LogDefine → List LogDefine → LoggerManager → Option LoggerManager
retire_all [] new m = some m
retire_all (i ∷ is) new m = elim (find_define i new) [
  | some d ↦ retire_all is new m
  | none ↦ do
    let r = get_logger i.name m
    n ← in_store (λ s. do t ← set_level r.0 4_294_967_295 s; clear_appenders r.0 t) r.1
    retire_all is new n
]

unfoldable pub on_logger_conf_changed :
    List LogDefine → List LogDefine → LoggerManager → Option LoggerManager
on_logger_conf_changed old new m = do n ← configure_all new old m; retire_all old new n

choose_logger-unchanged :
    (i d : LogDefine) (old : List LogDefine) (m : LoggerManager)
    → find_define i old ≡ some d
    → define_eq i d ≡ true
    → choose_logger i old m ≡ (none, m)
unfolding choose_logger
choose_logger-unchanged i d old m e q = rw (choose_logger, e, q) refl

configure_all-unchanged :
    (front back old : List LogDefine) (i d : LogDefine) (m : LoggerManager)
    → find_define i old ≡ some d
    → define_eq i d ≡ true
    → configure_all (front ++ i ∷ back) old m ≡ none
unfolding configure_all configure
configure_all-unchanged [] back old i d m e q = rw (choose_logger-unchanged i d old m e q) refl
configure_all-unchanged (j ∷ front) back old i d m e q =
    elim (Option-cases (configure j (choose_logger j old m))) [
      | inl n ↦ rw n refl
      | inr (n, k) ↦ rw k (configure_all-unchanged front back old i d n e q)
    ]

-- When the old value has a definition of the same name that equals one of the new value, the listener calls
-- members through a null pointer, whatever else the values hold and whatever loggers there are.
pub on_logger_conf_changed-unchanged :
    (front back old : List LogDefine) (i d : LogDefine) (m : LoggerManager)
    → find_define i old ≡ some d
    → define_eq i d ≡ true
    → on_logger_conf_changed old (front ++ i ∷ back) m ≡ none
unfolding on_logger_conf_changed
on_logger_conf_changed-unchanged front back old i d m e q =
    rw (on_logger_conf_changed, configure_all-unchanged front back old i d m e q) refl
