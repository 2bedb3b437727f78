-- ===== src/Log/Loggers/Delivery.antt =====
-- Who gets an event, and the manager of the loggers.
use exhy.Common.{
  ℕ, suc, ◌≡◌, refl, sym, ap, ◌∙◌, ◌⊎◌, inl, inr, Bool, true, false, List, [], ◌∷◌, ◌++◌, Option,
  none, some, leb, ltb, Bool-cases, if◌then◌else◌, All, get_elem?,
}
use exhy.Common.Alls.{get_elem?-found, All-get}
use exhy.Log.{Bytes, LogLevel, LogEvent, level_number}
use exhy.Log.Pattern.{format}
use exhy.Log.Loggers.{
  LogAppender, Logger, Store, Write, appender_log, log_to, deliver, log, LoggerManager,
}
use exhy.Log.Loggers.Wf.{Armed, Attached, IsReady}
use exhy.Log.Loggers.Manager.{IsManaged}

-- Whether Logger::log lets an event through: its level is above the logger's.
abbrev pub passes : Logger → LogLevel → Bool
passes x level = ltb x.level (level_number level)

-- The appenders that get an event: the logger's, or the root's for a logger that has none.
abbrev pub gather : Bool → List ℕ → List ℕ → List ℕ
gather false ids up = []
gather true (a ∷ rest) up = a ∷ rest
gather true [] up = up

abbrev pub root_receivers : Store → LogLevel → Option ℕ → List ℕ
root_receivers s level none = []
root_receivers s level (some r) = elim (get_elem? s.loggers r) [
  | none ↦ []
  | some y ↦ gather (passes y level) y.appenders []
]

abbrev pub receivers : Store → LogLevel → Logger → List ℕ
receivers s level x = gather (passes x level) x.appenders (root_receivers s level x.root)

module _ (strftime : Bytes → ℕ → Bytes) (level : LogLevel) (event : LogEvent) where
  -- What an appender with a formatter writes of an event at its level or above.
  abbrev written : LogAppender → List Write
  written y = elim y.formatter [
    | none ↦ []
    | some f ↦
        if leb y.level (level_number level)
        then (record { target = y.target; text = format strftime f level event ++ b'\n' ∷ [] }) ∷ []
        else []
  ]

  abbrev written_at : List LogAppender → ℕ → List Write
  written_at xs a = elim (get_elem? xs a) [ none ↦ [] | some y ↦ written y ]

  abbrev pub all_written : List LogAppender → List ℕ → List Write
  all_written xs [] = []
  all_written xs (a ∷ rest) = written_at xs a ++ all_written xs rest

  appender_log-Armed :
      (y : LogAppender) → Armed y → appender_log strftime y level event ≡ some (written y)
  unfolding appender_log
  appender_log-Armed y (h, f, e) = elim (Bool-cases (leb y.level (level_number level))) [
    | inl k ↦ rw (appender_log, k, e, k) refl
    | inr k ↦ rw (appender_log, k, e, k) refl
  ]

  log_to-Attached :
      (xs : List LogAppender) (ids : List ℕ)
      → All (Attached xs) ids
      → log_to strftime xs ids level event ≡ some (all_written xs ids)
  unfolding log_to
  log_to-Attached xs [] h = refl
  log_to-Attached xs (a ∷ rest) ((y, e, armed), hs) =
      rw (log_to, written_at, e, appender_log-Armed y armed, log_to-Attached xs rest hs) refl

  deliver-gather :
      (xs : List LogAppender) (b : Bool) (ids up : List ℕ)
      → All (Attached xs) ids
      → deliver strftime xs b ids (some (all_written xs up)) level event
        ≡ some (all_written xs (gather b ids up))
  unfolding deliver
  deliver-gather xs false ids up h = refl
  deliver-gather xs true (a ∷ rest) up h = log_to-Attached xs (a ∷ rest) h
  deliver-gather xs true [] up h = refl

  -- A logger without a root, and one whose root has none.
  log-rootless :
      (fuel : ℕ) (s : Store) (l : ℕ) {x : Logger}
      → IsReady s.appenders x
      → get_elem? s.loggers l ≡ some x
      → x.root ≡ none
      → log strftime (suc fuel) s l level event
        ≡ some (all_written s.appenders (gather (passes x level) x.appenders []))
  unfolding log
  log-rootless fuel s l {x = x} (f, hs) e d =
      rw (log, e)
        (ap (λ up. deliver strftime s.appenders (passes x level) x.appenders up level event)
            (up_none x.root d)
          ∙ deliver-gather s.appenders (passes x level) x.appenders [] hs)
    where
      up_none :
          (o : Option ℕ)
          → o ≡ none
          → (elim o [ none ↦ some [] | some r ↦ log strftime fuel s r level event ]) ≡ some []
      up_none o d = rw d refl

module _ (strftime : Bytes → ℕ → Bytes) (level : LogLevel) (event : LogEvent) where
  -- Logger::log on a logger of the manager, whose invariant holds, goes up to the root at most once and never meets a
  -- null formatter: an event at the logger's level or below it is dropped, and one above it is written by each of the
  -- logger's appenders whose level it reaches, in order, or by the root's in the same way if the logger has none.
  pub log-receivers :
      (m : LoggerManager) (l : ℕ) (x : Logger)
      → IsManaged m
      → get_elem? m.store.loggers l ≡ some x
      → log strftime 2 m.store l level event
        ≡ some (all_written strftime level event m.store.appenders (receivers m.store level x))
  unfolding log
  log-receivers m l x v e =
      let s = m.store in
      let h = All-get (IsReady s.appenders) s.loggers l v.valid.ready e in
      rw (log, e)
        (ap (λ up. deliver strftime s.appenders (passes x level) x.appenders up level event)
            (up_lem x.root
              (All-get (λ y. (y.root ≡ none) ⊎ (y.root ≡ some m.root)) s.loggers l v.rooted e))
          ∙ deliver-gather strftime level event s.appenders (passes x level) x.appenders
              (root_receivers s level x.root) h.1)
    where
      root_lem :
          {y : Logger}
          → get_elem? m.store.loggers m.root ≡ some y
          → root_receivers m.store level (some m.root) ≡ gather (passes y level) y.appenders []
      root_lem q = rw (root_receivers, q) refl

      up_lem :
          (o : Option ℕ)
          → (o ≡ none) ⊎ (o ≡ some m.root)
          → (elim o [ none ↦ some [] | some r ↦ log strftime 1 m.store r level event ])
            ≡ some (
                all_written strftime level event m.store.appenders (root_receivers m.store level o))
      up_lem o (inl d) = rw d refl
      up_lem o (inr d) =
          let (y, q) = get_elem?-found m.store.loggers m.root v.root_found in
          let r = All-get (IsReady m.store.appenders) m.store.loggers m.root v.valid.ready q in
          rw d (
            log-rootless strftime level event 0 m.store m.root r q (v.root_top y q)
            ∙ ap (λ ids. some (all_written strftime level event m.store.appenders ids))
                (sym (root_lem q)))
