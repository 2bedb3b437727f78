-- ===== src/Common/Bits.antt =====
-- The bit operations of C++ on unsigned words, as arithmetic.
use Prim.Native.Nat.{
  ℕ, zero, suc, ◌+◌, ◌-◌, ◌*◌, ◌/◌, ◌%◌, ◌^◌, ◌≤◌, ◌<◌, min, max, bit_and, bit_or, bit_xor, digits,
  bitwise, bit_and-bitwise, bit_or-bitwise, bit_xor-bitwise,
}
use Prim.Native.Nat.{differ}
use mathlib.Core.Path.{◌≡◌, refl, sym, ap, ◌∙◌}
use native.Mathlib.Omega.{arith}

-- `digits` stops at the first operand 0, so all fuel above the operand gives what the operand gives.
module _ (rest : ℕ → ℕ) (bit : ℕ → ℕ → ℕ) where
  at_zero : (fuel b : ℕ) → digits rest bit fuel 0 b ≡ digits rest bit 0 0 b
  at_zero zero b = refl
  at_zero (suc fuel) b = refl

  settled :
      (bound fuel a b : ℕ)
      → fuel ≤ bound
      → a ≤ fuel
      → digits rest bit fuel a b ≡ digits rest bit a a b
  settled bound fuel zero b h k = at_zero fuel b
  settled bound zero (suc a) b h k = elim k [ ]
  settled zero (suc fuel) (suc a) b h k = elim h [ ]
  settled (suc bound) (suc fuel) (suc a) b h k =
      let half : suc a / 2 ≤ a = omega arith in
      ap (λ t. t * 2 + bit (suc a % 2) (b % 2))
        (settled bound fuel (suc a / 2) (b / 2) (omega arith) (omega arith)
          ∙ sym (settled bound a (suc a / 2) (b / 2) (omega arith) half))

  -- The lowest digit, and the others.
  lowest :
      (a b : ℕ)
      → bit (suc a % 2) (b % 2) + 2 * bitwise rest bit (suc a / 2) (b / 2)
        ≡ bitwise rest bit (suc a) b
  lowest a b = omega (arith, settled a a (suc a / 2) (b / 2) (omega arith) (omega arith))

lowest_and : (a b : ℕ) → min (a % 2) (b % 2) + 2 * bit_and (a / 2) (b / 2) ≡ bit_and a b
lowest_and zero b = simp bit_and-bitwise (omega arith)
lowest_and (suc a) b = simp bit_and-bitwise (lowest (λ y. 0) min a b)

lowest_or : (a b : ℕ) → max (a % 2) (b % 2) + 2 * bit_or (a / 2) (b / 2) ≡ bit_or a b
lowest_or zero b = simp bit_or-bitwise (omega arith)
lowest_or (suc a) b = simp bit_or-bitwise (lowest (λ y. y) max a b)

lowest_xor : (a b : ℕ) → differ (a % 2) (b % 2) + 2 * bit_xor (a / 2) (b / 2) ≡ bit_xor a b
lowest_xor zero b = simp bit_xor-bitwise (omega arith)
lowest_xor (suc a) b = simp bit_xor-bitwise (lowest (λ y. y) differ a b)

none_in : (bound a : ℕ) → a ≤ bound → bit_and a 0 ≡ 0
none_in bound zero h = refl
none_in zero (suc a) h = elim h [ ]
none_in (suc bound) (suc a) h =
    omega (arith, lowest_and (suc a) 0, none_in bound (suc a / 2) (omega arith))

pub bit_and_low1 : (a : ℕ) → bit_and a 1 ≡ a % 2
bit_and_low1 a = omega (arith, lowest_and a 1, none_in (a / 2) (a / 2) (omega arith))

-- `x & 0x0f` and `x & 0x7f` on a word of any width: four bits, and three more above them.
bit_and_low4 : (a : ℕ) → bit_and a 0x0f ≡ a % 16
bit_and_low4 a =
    let quarter = a / 2 / 2 in
    omega (
      arith,
      lowest_and a 15,
      lowest_and (a / 2) 7,
      lowest_and quarter 3,
      bit_and_low1 (quarter / 2),
    )

pub bit_and_low7 : (a : ℕ) → bit_and a 0x7f ≡ a % 128
bit_and_low7 a =
    let quarter = a / 2 / 2 in
    omega (
      arith,
      lowest_and a 127,
      lowest_and (a / 2) 63,
      lowest_and quarter 31,
      bit_and_low4 (quarter / 2),
    )

zero-bit_or : (b : ℕ) → bit_or 0 b ≡ b
zero-bit_or b = simp bit_or-bitwise

two_pow : (s : ℕ) → 2 ^ suc s ≡ 2 * 2 ^ s
two_pow s = omega arith

-- Bits below position `s` and bits from it on do not meet, so `|` adds.
pub bit_or_disjoint : (s a g : ℕ) → a < 2 ^ s → bit_or a (g * 2 ^ s) ≡ a + g * 2 ^ s
bit_or_disjoint zero a g h =
    let e : a ≡ 0 = omega arith in rw e (omega (arith, zero-bit_or (g * 1)))
bit_or_disjoint (suc s) a g h =
    let e : g * 2 ^ suc s ≡ 2 * (g * 2 ^ s) = omega (arith, ap (λ (t : ℕ). g * t) (two_pow s)) in
    let half : 2 * (g * 2 ^ s) / 2 ≡ g * 2 ^ s = omega arith in
    let ih = bit_or_disjoint s (a / 2) g (omega (arith, two_pow s)) in
    rw e (sym (lowest_or a (2 * (g * 2 ^ s))) ∙ rw half (omega (arith, ih)))

-- `x | 0x80` below 0x80.
pub bit_or_high : (x : ℕ) → x < 128 → bit_or x 0x80 ≡ x + 128
bit_or_high x h = bit_or_disjoint 7 x 1 h

differ_one : (r : ℕ) → r < 2 → differ r 1 ≡ 1 - r
differ_one zero h = refl
differ_one (suc zero) h = refl
differ_one (suc (suc r)) h = absurd (omega arith)

differ-zero : (r : ℕ) → differ r 0 ≡ r
differ-zero zero = refl
differ-zero (suc r) = refl

two_pow_pos : (w : ℕ) → 0 < 2 ^ w
two_pow_pos zero = omega arith
two_pow_pos (suc w) = omega (arith, two_pow w, two_pow_pos w)

-- `x ^ 0xff…f` at width `w` flips every bit.
pub bit_xor_ones : (w x : ℕ) → x < 2 ^ w → bit_xor x (2 ^ w - 1) ≡ 2 ^ w - 1 - x
bit_xor_ones zero x h = let e : x ≡ 0 = omega arith in rw e
bit_xor_ones (suc w) x h =
    let mask : 2 ^ suc w - 1 ≡ 2 * (2 ^ w - 1) + 1 = omega (arith, two_pow w, two_pow_pos w) in
    let half : (2 * (2 ^ w - 1) + 1) / 2 ≡ 2 ^ w - 1 = omega arith in
    let odd : (2 * (2 ^ w - 1) + 1) % 2 ≡ 1 = omega arith in
    rw mask (
      sym (lowest_xor x (2 * (2 ^ w - 1) + 1))
      ∙ rw (half, odd)
          (omega (
            arith,
            bit_xor_ones w (x / 2) (omega (arith, two_pow w)),
            differ_one (x % 2) (omega arith),
            two_pow w,
          )))

bit_xor-zero_fuel : (w x : ℕ) → x ≤ w → bit_xor x 0 ≡ x
bit_xor-zero_fuel w zero h = refl
bit_xor-zero_fuel zero (suc x) h = absurd (omega arith)
bit_xor-zero_fuel (suc w) (suc x) h = omega (
  arith,
  lowest_xor (suc x) 0,
  differ-zero (suc x % 2),
  bit_xor-zero_fuel w (suc x / 2) (omega arith),
)

pub bit_xor-zero : (x : ℕ) → bit_xor x 0 ≡ x
bit_xor-zero x = bit_xor-zero_fuel x x (omega arith)
