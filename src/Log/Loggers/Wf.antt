-- ===== src/Log/Loggers/Wf.antt =====
-- The invariant of loggers and appenders, and the members of the classes as one step.
use Prim.Native.String.{String}
use exhy.Common.{
  ℕ, ◌<◌, ◌≡◌, refl, ap, subst, ◌∙◌, ◌⊎◌, inl, inr, Bool, true, false, List, [], ◌∷◌, ◌++◌, Option,
  none, some, ◌==◌, ==_iff, Bool-cases, if◌then◌else◌, ◌>>=◌, length, All, get_elem?, set,
  get_elem?-set_self, get_elem?-set_ne, get_elem?-lt, get_elem?-append_left,
}
use exhy.Common.Alls.{set_same, All-set, All-weaken}
use exhy.Log.{Bytes}
use exhy.Log.Pattern.{LogFormatter}
use exhy.Log.Loggers.{
  Target, LogAppender, Logger, Store, new_appender, new_logger, put_logger, put_appender,
  appender_set_formatter, equip, add_appender, erase_first, del_appender, clear_appenders,
  pass_formatter, pass_to, set_formatter, set_formatter_pattern, set_level,
}

-- The appender holds a formatter, and its flag says so.
abbrev pub Armed : LogAppender → Type 0
Armed y = (y.has_formatter ≡ true) × (f : LogFormatter) × (y.formatter ≡ some f)

abbrev pub Attached : List LogAppender → ℕ → Type 0
Attached xs a = (y : LogAppender) × (get_elem? xs a ≡ some y) × Armed y

-- The logger has a formatter, and so have all its appenders.
abbrev pub IsReady : List LogAppender → Logger → Type 0
IsReady xs x = ((f : LogFormatter) × (x.formatter ≡ some f)) × All (Attached xs) x.appenders

-- A pointer to a formatter in an appender and the appender's flag agree.
abbrev pub InStep : LogAppender → Type 0
InStep y = Armed y ⊎ ((y.has_formatter ≡ false) × (y.formatter ≡ none))

pub record IsValid (s : Store) : Type 0 where
  pub in_step : All InStep s.appenders
  pub ready : All (IsReady s.appenders) s.loggers

-- The calls that change loggers and appenders, with a formatter that is not null.
pub data Call : Type 0 where
  make_appender : Target → Call
  make_logger : String → Option ℕ → Call
  add : ℕ → ℕ → Call
  del : ℕ → ℕ → Call
  clear : ℕ → Call
  formatter_to : ℕ → LogFormatter → Call
  pattern_to : ℕ → Bytes → Call
  level_to : ℕ → ℕ → Call
  appender_formatter : ℕ → LogFormatter → Call
  appender_level : ℕ → ℕ → Call

unfoldable pub step : Call → Store → Option Store
step (make_appender t) s = some (record s { appenders = s.appenders ++ new_appender t ∷ [] })
step (make_logger n r) s =
    some (record s { loggers = s.loggers ++ record (new_logger n) { root = r } ∷ [] })
step (add l a) s = add_appender l a s
step (del l a) s = del_appender l a s
step (clear l) s = clear_appenders l s
step (formatter_to l f) s = set_formatter l (some f) s
step (pattern_to l p) s = set_formatter_pattern l p s
step (level_to l n) s = set_level l n s
step (appender_formatter a f) s = do
  x ← get_elem? s.appenders a
  some (put_appender a (appender_set_formatter (some f) x) s)
step (appender_level a n) s = do
  x ← get_elem? s.appenders a
  some (put_appender a (record x { level = n }) s)

-- The pointers of the call are to loggers and appenders that were made.
abbrev pub InBounds : Call → Store → Type 0
InBounds (make_appender t) s = Unit
InBounds (make_logger n r) s = Unit
InBounds (add l a) s = (l < length s.loggers) × (a < length s.appenders)
InBounds (del l a) s = l < length s.loggers
InBounds (clear l) s = l < length s.loggers
InBounds (formatter_to l f) s = l < length s.loggers
InBounds (pattern_to l p) s = l < length s.loggers
InBounds (level_to l n) s = l < length s.loggers
InBounds (appender_formatter a f) s = a < length s.appenders
InBounds (appender_level a n) s = a < length s.appenders

Attached-set :
    (xs : List LogAppender) (a : ℕ) {y : LogAppender} (z : LogAppender)
    → get_elem? xs a ≡ some y
    → (Armed y → Armed z)
    → (b : ℕ) → Attached xs b
    → Attached (set xs a z) b
Attached-set xs a {y = y} z e f b (w, g, h) = elim (Bool-cases (a == b)) [
  | inl k ↦
      let q : a ≡ b = (==_iff a b).0 k in
      let v : w ≡ y = cc (rw (← q) at g, e) in
      (
        z,
        subst (λ i. get_elem? (set xs a z) i ≡ some z) q
            (get_elem?-set_self xs a z (get_elem?-lt xs a e)),
        f (subst Armed v h),
      )
  | inr k ↦ (w, get_elem?-set_ne xs z (λ (q : a ≡ b). absurd (cc ((==_iff a b).1 q, k))) ∙ g, h)
]

pub IsReady-set :
    (xs : List LogAppender) (a : ℕ) {y : LogAppender} (z : LogAppender)
    → get_elem? xs a ≡ some y
    → (Armed y → Armed z)
    → (x : Logger) → IsReady xs x
    → IsReady (set xs a z) x
IsReady-set xs a z e f x (h, hs) =
    (h, All-weaken (Attached xs) (Attached (set xs a z)) x.appenders (Attached-set xs a z e f) hs)

pub Attached-append :
    (xs : List LogAppender) (z : LogAppender) (a : ℕ) → Attached xs a → Attached (xs ++ z ∷ []) a
Attached-append xs z a (y, e, h) =
    (y, get_elem?-append_left xs (z ∷ []) a (get_elem?-lt xs a e) ∙ e, h)

-- An appender changes: to one that is in step, and armed if the old one was.
pub put_appender-IsValid :
    (s : Store) (a : ℕ) {y : LogAppender} (z : LogAppender)
    → get_elem? s.appenders a ≡ some y
    → (Armed y → Armed z)
    → InStep z
    → IsValid s
    → IsValid (put_appender a z s)
put_appender-IsValid s a z e f i v = record {
  in_step = All-set InStep s.appenders a v.in_step i;
  ready =
      All-weaken (IsReady s.appenders) (IsReady (set s.appenders a z)) s.loggers
        (IsReady-set s.appenders a z e f) v.ready;
}

-- A logger changes to a ready one.
pub put_logger-IsValid :
    (s : Store) (l : ℕ) (x : Logger)
    → IsReady s.appenders x
    → IsValid s
    → IsValid (put_logger l x s)
put_logger-IsValid s l x h v = record {
  in_step = v.in_step;
  ready = All-set (IsReady s.appenders) s.loggers l v.ready h;
}

pub appender_set_formatter-Armed :
    (f : LogFormatter) (x : LogAppender) → Armed (appender_set_formatter (some f) x)
unfolding appender_set_formatter
appender_set_formatter-Armed f x = (refl, f, refl)

pub equip-Armed : (f : LogFormatter) (y : LogAppender) → InStep y → Armed (equip (some f) y)
unfolding equip
equip-Armed f y (inl (h, g, e)) = rw (equip, e) (h, g, e)
equip-Armed f y (inr (h, e)) = rw (equip, e) (appender_set_formatter-Armed f y)

pub erase_first-All : (P : ℕ → Type 0) (a : ℕ) (bs : List ℕ) → All P bs → All P (erase_first a bs)
unfolding erase_first
erase_first-All P a [] h = tt
erase_first-All P a (b ∷ bs) (h, hs) = elim (Bool-cases (b == a)) [
  | inl k ↦ rw (erase_first, k) hs
  | inr k ↦ rw (erase_first, k) (h, erase_first-All P a bs hs)
]

if_true : (b : Bool) (x y : LogAppender) → b ≡ true → (if b then x else y) ≡ x
if_true b x y e = ap (λ z. if z then x else y) e

pass_formatter-Armed :
    (f : Option LogFormatter) (y : LogAppender) → Armed y → pass_formatter f y ≡ y
unfolding pass_formatter
pass_formatter-Armed f y armed = if_true y.has_formatter y _ armed.0

-- An appender that a logger has is passed over: its flag is set.
pub pass_to-kept :
    (f : Option LogFormatter) (ids : List ℕ) (xs : List LogAppender)
    → All (Attached xs) ids
    → pass_to f ids xs ≡ some xs
unfolding pass_to
pass_to-kept f [] xs h = refl
pass_to-kept f (a ∷ rest) xs ((y, e, armed), hs) =
    rw (pass_to, e, pass_formatter-Armed f y armed, set_same xs a e) (pass_to-kept f rest xs hs)
