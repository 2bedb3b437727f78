-- ===== src/Log/Loggers/Manager.antt =====
-- LoggerManager: its invariant, and getLogger.
use Prim.Native.String.{String}
use text.Mathlib.Text.{◌==◌ as str_eq}
use text.Mathlib.TextPositions.{eq_refl}
use exhy.Common.{
  ℕ, ◌<◌, ◌≡◌, refl, sym, ap, subst, ◌∙◌, ◌⊎◌, inl, inr, List, [], ◌∷◌, ◌++◌, none, some, arith,
  Bool-cases, Option-cases, length, All, get_elem?, get_elem?-append_left, length-append,
}
use mathlib.Core.Option.{some-injective}
use exhy.Common.Alls.{All-concat, All-weaken}
use exhy.Log.{codes}
use exhy.Log.Loggers.{
  file_target, LogAppender, Logger, Store, LoggerManager, find, add_logger, get_logger, new_logger,
  put_logger, put_appender, equip, new_appender, stdout_target, root_appenders, add_appender,
  new_logger_manager,
}
use exhy.Log.Loggers.Wf.{IsValid, make_logger, step}
use exhy.Log.Loggers.Calls.{step-IsValid, new_logger-formatter, add_appender-Goes}

pub record IsManaged (m : LoggerManager) : Type 0 where
  pub valid : IsValid m.store
  pub root_found : m.root < length m.store.loggers
  pub rooted : All (λ x. (x.root ≡ none) ⊎ (x.root ≡ some m.root)) m.store.loggers
  pub root_top : (x : Logger) → get_elem? m.store.loggers m.root ≡ some x → x.root ≡ none
  pub table : All (λ e. e.1 < length m.store.loggers) m.loggers

-- getLogger.
find-append :
    (name : String) (l : ℕ) (ls : List (String × ℕ))
    → find name ls ≡ none
    → find name (ls ++ (name, l) ∷ []) ≡ some l
unfolding find
find-append name l [] h = rw (eq_refl name) refl
find-append name l ((k, i) ∷ ls) h = ground (arith, find-append name l ls)

find-All :
    (n : ℕ) (name : String) (ls : List (String × ℕ)) {l : ℕ}
    → All (λ e. e.1 < n) ls
    → find name ls ≡ some l
    → l < n
unfolding find
find-All n name [] h e = cc
find-All n name ((k, i) ∷ ls) {l = l} (h, hs) e = elim (Bool-cases (str_eq k name)) [
  | inl q ↦ let d : i ≡ l = ground arith in subst (λ z. z < n) d h
  | inr q ↦ let d : find name ls ≡ some l = ground arith in find-All n name ls hs d
]

-- What getLogger hands out: a logger that is there, under that name, and the same one the next time.
pub record IsServed (name : String) (r : ℕ × LoggerManager) : Type 0 where
  pub managed : IsManaged r.1
  pub found : r.0 < length r.1.store.loggers
  pub listed : find name r.1.loggers ≡ some r.0
  pub again : get_logger name r.1 ≡ r

get_logger-old :
    (name : String) (m : LoggerManager) {l : ℕ}
    → find name m.loggers ≡ some l
    → get_logger name m ≡ (l, m)
unfolding get_logger
get_logger-old name m e = rw (get_logger, e) refl

get_logger-new :
    (name : String) (m : LoggerManager)
    → find name m.loggers ≡ none
    → get_logger name m ≡ (length m.store.loggers, add_logger name m)
unfolding get_logger
get_logger-new name m e = rw (get_logger, e) refl

pub add_logger-IsManaged :
    (name : String) (m : LoggerManager) → IsManaged m → IsManaged (add_logger name m)
unfolding step
add_logger-IsManaged name m v =
    let (t, e, u) = step-IsValid m.store v.valid (make_logger name (some m.root)) tt in
    let ls = m.store.loggers in
    let x = record (new_logger name) { root = some m.root } in
    let n = length-append ls (x ∷ []) in
    record {
      valid = subst IsValid (cc e) u;
      root_found = omega (arith, v.root_found);
      rooted = All-concat (λ y. (y.root ≡ none) ⊎ (y.root ≡ some m.root)) ls v.rooted (inr refl);
      root_top =
          λ y q. v.root_top y (sym (get_elem?-append_left ls (x ∷ []) m.root v.root_found) ∙ q);
      table =
          All-concat (λ d. d.1 < length (ls ++ x ∷ [])) m.loggers
            (All-weaken (λ d. d.1 < length ls) (λ d. d.1 < length (ls ++ x ∷ [])) m.loggers
              (λ d q. omega arith) v.table)
            (omega arith);
    }

-- getLogger keeps the manager's invariant and hands out a logger that is in its store and stands in its table under
-- the name; asked again for the name, it hands out the same logger and changes nothing.
pub get_logger-IsServed :
    (name : String) (m : LoggerManager) → IsManaged m → IsServed name (get_logger name m)
get_logger-IsServed name m v = elim (Option-cases (find name m.loggers)) [
  | inr (l, e) ↦ subst (IsServed name) (sym (get_logger-old name m e)) (record {
    managed = v;
    found = find-All (length m.store.loggers) name m.loggers v.table e;
    listed = e;
    again = get_logger-old name m e;
  })
  | inl e ↦
      let f = find-append name (length m.store.loggers) m.loggers e in
      subst (IsServed name) (sym (get_logger-new name m e)) (record {
        managed = add_logger-IsManaged name m v;
        found = omega (
          arith,
          length-append m.store.loggers (record (new_logger name) { root = some m.root } ∷ []),
        );
        listed = f;
        again = get_logger-old name (add_logger name m) f;
      })
]

abbrev first_store : Store
first_store = record { appenders = root_appenders; loggers = new_logger "root" ∷ [] }

-- After addAppender of the `a`-th appender to the root.
abbrev after : ℕ → LogAppender → List ℕ → Store → Store
after a y ids s =
    put_logger 0 (record (new_logger "root") { appenders = ids })
      (put_appender a (equip (new_logger "root").formatter y) s)

abbrev second_store : Store
second_store = after 0 (new_appender stdout_target) (0 ∷ []) first_store

-- The root with its two appenders.
abbrev pub root_manager : LoggerManager
root_manager = record {
  loggers = ("root", 0) ∷ [];
  root = 0;
  store = after 1 (new_appender (file_target (codes "exhy/log.txt"))) (0 ∷ 1 ∷ []) second_store;
}

second_store-IsValid : IsValid second_store
unfolding add_appender new_logger
second_store-IsValid =
    let valid : IsValid first_store = record {
      in_step = (inr (refl, refl), (inr (refl, refl), tt));
      ready = ((new_logger-formatter "root", tt), tt);
    } in
    let (t, e, u) = add_appender-Goes first_store valid 0 0 (omega arith) (omega arith) in
    subst IsValid (some-injective _ _ (sym e)) u

-- The constructor of LoggerManager makes the root logger with an appender on the standard output and one on the log
-- file, and keeps the invariant.
pub new_logger_manager-IsManaged : (new_logger_manager ≡ some root_manager) × IsManaged root_manager
unfolding new_logger_manager add_appender new_logger
new_logger_manager-IsManaged =
    let (t, e, u) =
      add_appender-Goes second_store second_store-IsValid 0 1 (omega arith) (omega arith) in
    (
      refl,
      record {
        valid = subst IsValid (some-injective _ _ (sym e)) u;
        root_found = omega arith;
        rooted = (inl refl, tt);
        root_top = λ x q. ap (λ (y : Logger). y.root) (some-injective _ _ (sym q));
        table = (omega arith, tt);
      },
    )
