-- ===== src/Streams/Runs.antt =====
-- Runs of the exact reads and writes: a stream that hands over two bytes at a time.
use exhy.Common.{zero, ℕ, suc, ◌≡◌, refl, List, [], ◌∷◌, some, arith}
use exhy.Streams.{
  Answer, came, stopped, Result, whole, failed, read_left, read_fix_size, Sent, went, refused,
  write_fix_size,
}
use exhy.Streams.Exact.{Bounded, Outcome, read_fix_size_lem, WriteOutcome, write_fix_size_lem}

-- What the peer still has to send.
abbrev pairs : List ℕ → ℕ → Answer × List ℕ
pairs [] n = (stopped 0, [])
pairs (c ∷ cs) zero = (stopped 0, c ∷ cs)
pairs (c ∷ cs) (suc zero) = (came c [], cs)
pairs (c ∷ []) (suc (suc n)) = (came c [], [])
pairs (c ∷ d ∷ cs) (suc (suc n)) = (came c (d ∷ []), cs)

pairs-Bounded : Bounded pairs
pairs-Bounded [] n c cs q = cc
pairs-Bounded (d ∷ ds) zero c cs q = cc
pairs-Bounded (d ∷ ds) (suc zero) c cs q = let e : cs ≡ [] = cc in rw e (omega arith)
pairs-Bounded (d ∷ []) (suc (suc n)) c cs q = let e : cs ≡ [] = cc in rw e (omega arith)
pairs-Bounded (d ∷ e ∷ ds) (suc (suc n)) c cs q = let f : cs ≡ e ∷ [] = cc in rw f (omega arith)

read_run : read_fix_size pairs 3 (1 ∷ 2 ∷ 3 ∷ 4 ∷ []) ≡ some (whole 3, 1 ∷ 2 ∷ 3 ∷ [], 4 ∷ [])
unfolding read_fix_size read_left
read_run = refl

short_run : read_fix_size pairs 3 (1 ∷ 2 ∷ []) ≡ some (failed 0, 1 ∷ 2 ∷ [], [])
unfolding read_fix_size read_left
short_run = refl

read_fix_size_lem_example :
    (r : Result) × (out : List ℕ) × (t : List ℕ) × (read_fix_size pairs 3 (1 ∷ 2 ∷ 3 ∷ 4 ∷ [])
      ≡ some (r, out, t))
    × Outcome pairs 3 3 (1 ∷ 2 ∷ 3 ∷ 4 ∷ []) r out t
read_fix_size_lem_example =
    read_fix_size_lem pairs 3 (1 ∷ 2 ∷ 3 ∷ 4 ∷ []) pairs-Bounded (omega arith)

-- A stream that takes two bytes at a time, five times.
abbrev takes : ℕ → List ℕ → Sent × ℕ
takes zero left = (refused 1, 0)
takes (suc k) left = (went 1, k)

write_fix_size_lem_example :
    (r : Result) × (t : ℕ) × (write_fix_size takes (1 ∷ 2 ∷ 3 ∷ []) 5 ≡ some (r, t))
    × WriteOutcome takes 3 5 (1 ∷ 2 ∷ 3 ∷ []) r t
write_fix_size_lem_example = write_fix_size_lem takes (1 ∷ 2 ∷ 3 ∷ []) 5 (omega arith)
