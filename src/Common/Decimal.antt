-- ===== src/Common/Decimal.antt =====
-- What operator<< prints of a number that is not negative, and how it is read back.
use exhy.Common.{
  ℕ, zero, suc, ◌+◌, ◌-◌, ◌*◌, ◌/◌, ◌%◌, ◌^◌, ◌≤◌, ◌<◌, ◌≡◌, refl, ◌∙◌, inl, inr, List, [], ◌∷◌,
  ◌++◌, arith, ltb, ltb→lt, ltb-false→le, Bool-cases, if◌then◌else◌, All,
}

pub digits : ℕ → ℕ → List ℕ
digits zero n = []
digits (suc fuel) n =
    let high = digits fuel (n / 10) in
    if ltb n 10 then (b'0' + n) ∷ [] else high ++ (b'0' + n % 10) ∷ []

-- Twenty digits hold any 64-bit number.
unfoldable pub decimal : ℕ → List ℕ
unfolding digits
decimal n = digits 20 n

abbrev pub IsDigit : ℕ → Type 0
IsDigit c = (b'0' ≤ c) × (c ≤ b'9')

All-append : (P : ℕ → Type 0) (xs ys : List ℕ) → All P xs → All P ys → All P (xs ++ ys)
All-append P [] ys h k = k
All-append P (x ∷ xs) ys (h, hs) k = (h, All-append P xs ys hs k)

digits-IsDigit : (fuel n : ℕ) → All IsDigit (digits fuel n)
unfolding digits
digits-IsDigit zero n = tt
digits-IsDigit (suc fuel) n = elim (Bool-cases (ltb n 10)) [
  | inl k ↦ let l = ltb→lt n 10 k in rw (digits, k) ((omega arith, omega arith), tt)
  | inr k ↦
      rw (digits, k)
        (All-append IsDigit (digits fuel (n / 10)) _ (digits-IsDigit fuel (n / 10))
          ((omega arith, omega arith), tt))
]

pub decimal-IsDigit : (n : ℕ) → All IsDigit (decimal n)
unfolding decimal
decimal-IsDigit n = digits-IsDigit 20 n

-- The number of a text of digits, behind the digits that made `acc`.
abbrev pub number : ℕ → List ℕ → ℕ
number acc [] = acc
number acc (c ∷ cs) = number (acc * 10 + (c - b'0')) cs

number-append : (acc : ℕ) (xs ys : List ℕ) → number acc (xs ++ ys) ≡ number (number acc xs) ys
number-append acc [] ys = refl
number-append acc (x ∷ xs) ys = number-append (acc * 10 + (x - b'0')) xs ys

abbrev pub power : ℕ → ℕ
power zero = 1
power (suc k) = 10 * power k

number-digits : (fuel n : ℕ) → n < power fuel → number 0 (digits fuel n) ≡ n
unfolding digits
number-digits zero n h = omega arith
number-digits (suc fuel) n h = elim (Bool-cases (ltb n 10)) [
  | inl k ↦ rw (digits, k) (omega arith)
  | inr k ↦
      let ih = number-digits fuel (n / 10) (omega arith) in
      let l = ltb-false→le n 10 k in
      rw (digits, k)
        (number-append 0 (digits fuel (n / 10)) ((b'0' + n % 10) ∷ []) ∙ rw ih (omega arith))
]

-- Reading back gives the number, below 2 ^ 64.
pub number-decimal : (n : ℕ) → n < 2 ^ 64 → number 0 (decimal n) ≡ n
unfolding decimal
number-decimal n h = number-digits 20 n (omega arith)
