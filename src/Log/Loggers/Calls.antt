-- ===== src/Log/Loggers/Calls.antt =====
-- Every call that changes loggers and appenders goes through, and keeps the invariant.
use Prim.Native.String.{String}
use exhy.Common.{
  set, ℕ, ◌<◌, ◌≡◌, refl, inl, inr, List, [], ◌∷◌, ◌++◌, Option, some, Bool-cases, length,
  get_elem?, get_elem?-set_self,
}
use exhy.Common.Alls.{get_elem?-found, All-get, All-concat, All-weaken}
use exhy.Log.{Bytes}
use exhy.Log.Pattern.{LogFormatter}
use exhy.Log.Pattern.Ends.{new_log_formatter-terminates}
use exhy.Log.Loggers.{
  default_pattern, Target, LogAppender, Logger, Store, new_appender, new_logger, put_logger,
  put_appender, appender_set_formatter, equip, add_appender, erase_first, del_appender,
  clear_appenders, set_formatter, set_formatter_pattern, set_level,
}
use exhy.Log.Loggers.Wf.{
  Armed, Attached, IsReady, InStep, IsValid, Call, make_appender, make_logger, add, del, clear,
  formatter_to, pattern_to, level_to, appender_formatter, appender_level, step, InBounds,
  put_appender-IsValid, put_logger-IsValid, appender_set_formatter-Armed, equip-Armed,
  erase_first-All, pass_to-kept, Attached-append, IsReady-set,
}

pub new_logger-formatter :
    (name : String) → (f : LogFormatter) × ((new_logger name).formatter ≡ some f)
unfolding new_logger
new_logger-formatter name = new_log_formatter-terminates default_pattern

abbrev pub Goes : Option Store → Type 0
Goes o = (t : Store) × (o ≡ some t) × IsValid t

module _ (s : Store) (v : IsValid s) where
  ready_at : (l : ℕ) {x : Logger} → get_elem? s.loggers l ≡ some x → IsReady s.appenders x
  ready_at l e = All-get (IsReady s.appenders) s.loggers l v.ready e

  pub add_appender-Goes :
      (l a : ℕ) → l < length s.loggers → a < length s.appenders → Goes (add_appender l a s)
  unfolding add_appender
  add_appender-Goes l a h k =
      let (x, e) = get_elem?-found s.loggers l h in
      let (y, d) = get_elem?-found s.appenders a k in
      let ((f, p), hs) = ready_at l e in
      let i = All-get InStep s.appenders a v.in_step d in
      let z : LogAppender = equip x.formatter y in
      let armed : Armed z = rw p (equip-Armed f y i) in
      let t : Store = put_appender a z s in
      let u : IsValid t = put_appender-IsValid s a z d (λ _. armed) (inl armed) v in
      let (g, gs) = IsReady-set s.appenders a z d (λ _. armed) x ((f, p), hs) in
      let new : Attached t.appenders a = (z, get_elem?-set_self s.appenders a z k, armed) in
      (
        put_logger l (record x { appenders = x.appenders ++ a ∷ [] }) t,
        rw (e, d) refl,
        put_logger-IsValid t l _ (g, All-concat (Attached t.appenders) x.appenders gs new) u,
      )

  set_formatter_pattern-Goes :
      (l : ℕ) (p : Bytes) → l < length s.loggers → Goes (set_formatter_pattern l p s)
  unfolding set_formatter_pattern
  set_formatter_pattern-Goes l p h =
      let (x, e) = get_elem?-found s.loggers l h in
      let (f, d) = new_log_formatter-terminates p in
      let r = ready_at l e in
      elim (Bool-cases f.error) [
        | inl k ↦ (s, rw (e, d, k) refl, v)
        | inr k ↦ (
          put_logger l (record x { formatter = some f }) s,
          rw (e, d, k) refl,
          put_logger-IsValid s l _ ((f, refl), r.1) v,
        )
      ]

  IsReady-append :
      (t : Target) (x : Logger)
      → IsReady s.appenders x
      → IsReady (s.appenders ++ new_appender t ∷ []) x
  IsReady-append t x (f, hs) = (
    f,
    All-weaken (Attached s.appenders) (Attached (s.appenders ++ new_appender t ∷ [])) x.appenders
        (Attached-append s.appenders (new_appender t)) hs,
  )

  -- In a store where every logger and every attached appender has a formatter and the flags agree with the
  -- pointers, each call that changes loggers and appenders, on pointers to loggers and appenders that were made and
  -- with formatters that are not null, returns, and leaves such a store.
  pub step-IsValid : (c : Call) → InBounds c s → (t : Store) × (step c s ≡ some t) × IsValid t
  unfolding step del_appender clear_appenders set_level set_formatter new_logger
  step-IsValid (make_appender t) h =
      let xs : List LogAppender = s.appenders ++ new_appender t ∷ [] in
      (
        _,
        refl,
        record {
          in_step = All-concat InStep s.appenders v.in_step (inr (refl, refl));
          ready =
              All-weaken (IsReady s.appenders) (IsReady xs) s.loggers (IsReady-append t) v.ready;
        },
      )
  step-IsValid (make_logger n r) h = (
    _,
    refl,
    record {
      in_step = v.in_step;
      ready = All-concat (IsReady s.appenders) s.loggers v.ready (new_logger-formatter n, tt);
    },
  )
  step-IsValid (add l a) (h, k) = add_appender-Goes l a h k
  step-IsValid (del l a) h =
      let (x, e) = get_elem?-found s.loggers l h in
      let (f, hs) = ready_at l e in
      (
        _,
        rw e refl,
        put_logger-IsValid s l (record x { appenders = erase_first a x.appenders })
            (f, erase_first-All (Attached s.appenders) a x.appenders hs) v,
      )
  step-IsValid (clear l) h =
      let (x, e) = get_elem?-found s.loggers l h in
      (_, rw e refl, put_logger-IsValid s l (record x { appenders = [] }) ((ready_at l e).0, tt) v)
  step-IsValid (formatter_to l f) h =
      let (x, e) = get_elem?-found s.loggers l h in
      let (g, hs) = ready_at l e in
      (
        put_logger l (record x { formatter = some f }) s,
        rw (e, pass_to-kept (some f) x.appenders s.appenders hs) refl,
        put_logger-IsValid s l _ ((f, refl), hs) v,
      )
  step-IsValid (pattern_to l p) h = set_formatter_pattern-Goes l p h
  step-IsValid (level_to l n) h =
      let (x, e) = get_elem?-found s.loggers l h in
      (_, rw e refl, put_logger-IsValid s l (record x { level = n }) (ready_at l e) v)
  step-IsValid (appender_formatter a f) h =
      let (x, e) = get_elem?-found s.appenders a h in
      let armed = appender_set_formatter-Armed f x in
      (
        _,
        rw e refl,
        put_appender-IsValid s a (appender_set_formatter (some f) x) e (λ _. armed) (inl armed) v,
      )
  step-IsValid (appender_level a n) h =
      let (x, e) = get_elem?-found s.appenders a h in
      (
        _,
        rw e refl,
        put_appender-IsValid s a (record x { level = n }) e (λ z. z)
            (All-get InStep s.appenders a v.in_step e) v,
      )

-- Logger::setFormatter of a formatter that is not null, on a logger that was made, in such a store, makes it the
-- logger's own formatter and changes nothing else of any logger, and no appender: every appender of a logger has its
-- flag set by addAppender.
pub set_formatter-appenders :
    (s : Store) (l : ℕ) (f : LogFormatter)
    → IsValid s
    → l < length s.loggers
    → (x : Logger) × (t : Store) × (get_elem? s.loggers l ≡ some x)
      × (set_formatter l (some f) s ≡ some t)
      × (t.loggers ≡ set s.loggers l (record x { formatter = some f }))
      × (t.appenders ≡ s.appenders)
unfolding set_formatter
set_formatter-appenders s l f v h =
    let (x, e) = get_elem?-found s.loggers l h in
    let kept = pass_to-kept (some f) x.appenders s.appenders (ready_at s v l e).1 in
    (x, put_logger l (record x { formatter = some f }) s, e, rw (e, kept) refl, refl, refl)
