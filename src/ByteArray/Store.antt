-- ===== src/ByteArray/Store.antt =====
-- memcpy into and out of a byte sequence: laws of `store` and `slice`.
use exhy.Common.{
  ℕ, ◌+◌, ◌-◌, ◌≤◌, ◌≡◌, refl, sym, ap, ◌∙◌, List, [], ◌++◌, arith, length, take, drop,
  length-append, length-take, length-drop, take-append-drop, take_all, drop_all, take-append_len,
  drop-append_len, take-append_le, drop-append_le, take-append_ge, drop-append_ge, append_assoc,
  append-nil,
}
use exhy.ByteArray.{store, slice}

module _ (n : List ℕ) (pos : ℕ) (buf : List ℕ) where
  pub length-store : pos + length buf ≤ length n → length (store n pos buf) ≡ length n
  length-store h = omega (
    arith,
    length-append (take pos n) (buf ++ drop (pos + length buf) n),
    length-append buf (drop (pos + length buf) n),
    length-take pos n,
    length-drop (pos + length buf) n,
  )

  -- A store that ends within the front part leaves what follows.
  pub store-append_within :
      (fs : List ℕ) → pos + length buf ≤ length n → store (n ++ fs) pos buf ≡ store n pos buf ++ fs
  store-append_within fs h =
      rw (take-append_le pos n fs (omega arith), drop-append_le (pos + length buf) n fs h)
        (sym (
          append_assoc (take pos n) (buf ++ drop (pos + length buf) n) fs
          ∙ ap (◌++◌ (take pos n)) (append_assoc buf (drop (pos + length buf) n) fs)))

-- A store that passes the end of the front part splits there.
pub store-append_split :
    (n : List ℕ) (pos cap : ℕ) (buf fs : List ℕ)
    → length n ≡ pos + cap
    → cap ≤ length buf
    → store (n ++ fs) pos buf ≡ store n pos (take cap buf) ++ store fs 0 (drop cap buf)
store-append_split n pos cap buf fs e h =
    let lt : length (take cap buf) ≡ cap = omega (arith, length-take cap buf) in
    let ld : length (drop cap buf) ≡ length buf - cap = length-drop cap buf in
    let none_left : drop (pos + length (take cap buf)) n ≡ [] = drop_all _ n (omega arith) in
    let i : pos + length buf - length n ≡ 0 + length (drop cap buf) = omega arith in
    rw
      (
        take-append_le pos n fs (omega arith),
        drop-append_ge (pos + length buf) n fs (omega arith),
        i,
      )
      (rw (none_left, append-nil)
        (rw append_assoc (
          ap (λ t. take pos n ++ t)
            (ap (λ t. t ++ drop (0 + length (drop cap buf)) fs) (sym (take-append-drop cap buf))
              ∙ append_assoc (take cap buf) (drop cap buf) _))))

-- A store behind the front part.
pub store-append_behind :
    (xs ys buf : List ℕ) (p pos : ℕ)
    → p ≡ length xs + pos
    → store (xs ++ ys) p buf ≡ xs ++ store ys pos buf
store-append_behind xs ys buf p pos e =
    let i : p - length xs ≡ pos = omega arith in
    let j : p + length buf - length xs ≡ pos + length buf = omega arith in
    rw
      (
        take-append_ge p xs ys (omega arith),
        drop-append_ge (p + length buf) xs ys (omega arith),
        i,
        j,
      )
      (append_assoc xs (take pos ys) _)

pub slice-append_within :
    (pos k : ℕ) (n fs : List ℕ) → pos + k ≤ length n → slice pos k (n ++ fs) ≡ slice pos k n
slice-append_within pos k n fs h =
    rw (drop-append_le pos n fs (omega arith))
      (take-append_le k (drop pos n) fs (omega (arith, length-drop pos n)))

pub slice-append_split :
    (pos cap k : ℕ) (n fs : List ℕ)
    → length n ≡ pos + cap
    → cap ≤ k
    → slice pos k (n ++ fs) ≡ slice pos cap n ++ slice 0 (k - cap) fs
slice-append_split pos cap k n fs e h =
    let l : length (drop pos n) ≡ cap = omega (arith, length-drop pos n) in
    rw (drop-append_le pos n fs (omega arith), take-append_ge k (drop pos n) fs (omega arith), l)
      (ap (λ t. t ++ take (k - cap) fs) (sym (take_all cap (drop pos n) (omega arith))))

pub slice-append_behind :
    (p pos k : ℕ) (xs ys : List ℕ) → p ≡ length xs + pos → slice p k (xs ++ ys) ≡ slice pos k ys
slice-append_behind p pos k xs ys e =
    let i : p - length xs ≡ pos = omega arith in rw (drop-append_ge p xs ys (omega arith), i) refl

pub length-slice : (pos k : ℕ) (xs : List ℕ) → pos + k ≤ length xs → length (slice pos k xs) ≡ k
length-slice pos k xs h = omega (arith, length-take k (drop pos xs), length-drop pos xs)

-- What was stored is read back.
pub slice-store :
    (xs : List ℕ) (pos : ℕ) (buf : List ℕ)
    → pos + length buf ≤ length xs
    → slice pos (length buf) (store xs pos buf) ≡ buf
slice-store xs pos buf h =
    let l : pos ≡ length (take pos xs) = omega (arith, length-take pos xs) in
    rw (drop-append_len (take pos xs) (buf ++ drop (pos + length buf) xs) pos l)
      (take-append_len buf _ (length buf) refl)
