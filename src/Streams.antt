-- ===== src/Streams.antt =====
-- exhy/exhy_stream.cpp: the loops that read or write an exact number of bytes.
--
-- The virtual functions read and write are arguments: what the stream answers when it is asked for so many bytes, and
-- the stream after that. An answer of a positive number of bytes is those bytes; any other is the number with its
-- sign dropped, 0 at the end of the stream. The loops go on while bytes are left and the answer is positive; on fuel,
-- with `none` where it runs out. The overloads for a ByteArray, which have the same loops, are not modelled.
pub mod Exact
mod Runs
use exhy.Common.{
  ℕ, zero, suc, ◌-◌, ◌%◌, ◌^◌, Bool, true, false, if◌then◌else◌, List, [], ◌∷◌, ◌++◌, Option, none,
  some, ltb, length, take, drop,
}

-- read: the bytes that came, one at least, or how it failed.
pub data Answer : Type 0 where
  came : ℕ → List ℕ → Answer
  stopped : ℕ → Answer

-- What the functions return: `length` as an int, or the answer of the stream.
pub data Result : Type 0 where
  whole : ℕ → Result
  failed : ℕ → Result

module _ {S : Type 0} (read : S → ℕ → Answer × S) where
  unfoldable pub read_left : ℕ → ℕ → ℕ → List ℕ → S → Option (Result × List ℕ × S)
  read_left zero len left out s = none
  read_left (suc fuel) len left out s = elim (ltb 0 left) [
    | false ↦ some (whole (len % 2 ^ 32), out, s)
    | true ↦
        let r = read s left in
        elim r.0 [
          | stopped n ↦ some (failed n, out, r.1)
          | came c cs ↦ read_left fuel len (left - length (c ∷ cs)) (out ++ c ∷ cs) r.1
        ]
  ]

  -- `left` is an int64_t, which is negative for a length from 2 ^ 63 on. A turn of the loop takes a byte at least, and
  -- the last one only sees that none is left.
  unfoldable pub read_fix_size : ℕ → S → Option (Result × List ℕ × S)
  read_fix_size len s =
      if ltb len (2 ^ 63)
      then read_left (suc len) len len [] s
      else some (whole (len % 2 ^ 32), [], s)

-- write: how many bytes went, less one, or how it failed.
pub data Sent : Type 0 where
  went : ℕ → Sent
  refused : ℕ → Sent

module _ {S : Type 0} (write : S → List ℕ → Sent × S) where
  unfoldable pub write_left : ℕ → ℕ → List ℕ → S → Option (Result × S)
  write_left zero len left s = none
  write_left (suc fuel) len left s = elim (ltb 0 (length left)) [
    | false ↦ some (whole (len % 2 ^ 32), s)
    | true ↦
        let r = write s left in
        elim r.0 [
          | refused n ↦ some (failed n, r.1)
          | went n ↦ write_left fuel len (drop (suc n) left) r.1
        ]
  ]

  unfoldable pub write_fix_size : List ℕ → S → Option (Result × S)
  write_fix_size buffer s =
      if ltb (length buffer) (2 ^ 63)
      then write_left (suc (length buffer)) (length buffer) buffer s
      else some (whole (length buffer % 2 ^ 32), s)
