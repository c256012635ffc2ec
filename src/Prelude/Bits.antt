-- ===== src/Prelude/Bits.antt =====
-- `&` and `|` against a constant, split at a bit position. Flag words and length octets are read
-- through these two laws, so no mask needs a table.
use Prim.Native.Nat.{
  ℕ, zero, suc, ◌+◌, ◌-◌, ◌*◌, ◌/◌, ◌%◌, ◌^◌, ◌≤◌, ◌<◌, min, max, bit_and, bit_or, digits,
  bit_and-bitwise, bit_or-bitwise,
}
use mathlib.Core.Path.{◌≡◌, refl, ap, sym, ◌∙◌}
use native.Mathlib.Nat.{pow-suc, one-le-pow, div-add-mod', mod-lt}
use native.Mathlib.Omega.{arith}

-- The recursion on digits that the native operations stand for, on any fuel that is enough.
module _ (base : ℕ → ℕ) (digit : ℕ → ℕ → ℕ) where
  no_digit : (n b : ℕ) → digits base digit n 0 b ≡ base b
  no_digit zero b = refl
  no_digit (suc n) b = refl

  pub same_digits :
      (b m n a : ℕ) → (a ≤ m) × (a ≤ n) → digits base digit m a b ≡ digits base digit n a b
  same_digits b m n zero h = no_digit m b ∙ sym (no_digit n b)
  same_digits b (suc m) (suc n) (suc a) h =
      omega (arith, h, same_digits (b / 2) m n (suc a / 2) (omega (arith, h), omega (arith, h)))
  same_digits b zero n (suc a) h = absurd (omega (arith, h))
  same_digits b (suc m) zero (suc a) h = absurd (omega (arith, h))

pub and_step : (a b : ℕ) → bit_and a b ≡ bit_and (a / 2) (b / 2) * 2 + min (a % 2) (b % 2)
and_step zero b = omega (arith, bit_and-bitwise 0 b, bit_and-bitwise 0 (b / 2))
and_step (suc a) b = omega (
  arith,
  bit_and-bitwise (suc a) b,
  bit_and-bitwise (suc a / 2) (b / 2),
  same_digits (λ _. zero) min (b / 2) a (suc a / 2) (suc a / 2) (omega arith, omega arith),
)

pub or_step : (a b : ℕ) → bit_or a b ≡ bit_or (a / 2) (b / 2) * 2 + max (a % 2) (b % 2)
or_step zero b = omega (arith, bit_or-bitwise 0 b, bit_or-bitwise 0 (b / 2))
or_step (suc a) b = omega (
  arith,
  bit_or-bitwise (suc a) b,
  bit_or-bitwise (suc a / 2) (b / 2),
  same_digits (λ c. c) max (b / 2) a (suc a / 2) (suc a / 2) (omega arith, omega arith),
)

pub bit_and-zero : (a : ℕ) → bit_and a 0 ≡ 0
bit_and-zero a = down a a (omega arith)
  where
    down : (n a : ℕ) → a ≤ n → bit_and a 0 ≡ 0
    down n zero h = refl
    down zero (suc a) h = absurd (omega arith)
    down (suc n) (suc a) h = omega (arith, and_step (suc a) 0, down n (suc a / 2) (omega arith))

pub bit_or-zero : (a : ℕ) → bit_or a 0 ≡ a
bit_or-zero a = down a a (omega arith)
  where
    down : (n a : ℕ) → a ≤ n → bit_or a 0 ≡ a
    down n zero h = refl
    down zero (suc a) h = absurd (omega arith)
    down (suc n) (suc a) h = omega (arith, or_step (suc a) 0, down n (suc a / 2) (omega arith))

double_shift : (q k : ℕ) → q * 2 ^ suc k ≡ 2 * (q * 2 ^ k)
double_shift q k = omega (arith, ap (λ (t : ℕ). q * t) (pow-suc 2 k))

-- Both words in two parts, the lower one of `k` bits: the operation works on each part.
pub and_split :
    (k q r h l : ℕ)
    → r < 2 ^ k
    → l < 2 ^ k
    → bit_and (q * 2 ^ k + r) (h * 2 ^ k + l) ≡ bit_and q h * 2 ^ k + bit_and r l
and_split zero q r h l hr hl = ground (arith, bit_and-zero r)
and_split (suc k) q r h l hr hl = ground (
  arith,
  and_step (q * 2 ^ suc k + r) (h * 2 ^ suc k + l),
  and_step r l,
  double_shift q k,
  double_shift h k,
  double_shift (bit_and q h) k,
  pow-suc 2 k,
  and_split k q (r / 2) h (l / 2),
)

pub or_split :
    (k q r h l : ℕ)
    → r < 2 ^ k
    → l < 2 ^ k
    → bit_or (q * 2 ^ k + r) (h * 2 ^ k + l) ≡ bit_or q h * 2 ^ k + bit_or r l
or_split zero q r h l hr hl = ground (arith, bit_or-zero r)
or_split (suc k) q r h l hr hl = ground (
  arith,
  or_step (q * 2 ^ suc k + r) (h * 2 ^ suc k + l),
  or_step r l,
  double_shift q k,
  double_shift h k,
  double_shift (bit_or q h) k,
  pow-suc 2 k,
  or_split k q (r / 2) h (l / 2),
)

-- A mask of `k` ones keeps the remainder.
pub and_ones : (k a : ℕ) → a < 2 ^ k → bit_and a (2 ^ k - 1) ≡ a
and_ones zero a h = omega (arith, bit_and-zero a)
and_ones (suc k) a h =
    ground (arith, and_step a (2 ^ suc k - 1), pow-suc 2 k, one-le-pow k 2, and_ones k (a / 2))

-- The two top bits of an octet.
pub and_top_bits : (b : ℕ) → b < 256 → bit_and b 0xc0 ≡ b / 64 * 64
and_top_bits b h =
    ground (arith, and_split 6 (b / 64) (b % 64) 3 0, and_ones 2 (b / 64), bit_and-zero (b % 64))

-- Its six low bits.
pub and_low_bits : (b : ℕ) → b < 256 → bit_and b 0x3f ≡ b % 64
and_low_bits b h =
    ground (arith, and_split 6 (b / 64) (b % 64) 0 63, and_ones 6 (b % 64), bit_and-zero (b / 64))

-- A mask of the `w` lowest bits.
pub and_mask : (w a : ℕ) → bit_and a (2 ^ w - 1) ≡ a % 2 ^ w
and_mask w a = ground (
  arith,
  one-le-pow w 2,
  div-add-mod' a (2 ^ w),
  mod-lt a {m = 2 ^ w} (one-le-pow w 2 (omega arith)),
  and_split w (a / 2 ^ w) (a % 2 ^ w) 0 (2 ^ w - 1),
  and_ones w (a % 2 ^ w),
  bit_and-zero (a / 2 ^ w),
)

-- A field of `w` bits above `k` lower ones, of a 16-bit word.
pub and_field : (k w a : ℕ) → bit_and a ((2 ^ w - 1) * 2 ^ k) ≡ a / 2 ^ k % 2 ^ w * 2 ^ k
and_field k w a = ground (
  arith,
  one-le-pow k 2,
  div-add-mod' a (2 ^ k),
  mod-lt a {m = 2 ^ k} (one-le-pow k 2 (omega arith)),
  and_split k (a / 2 ^ k) (a % 2 ^ k) (2 ^ w - 1) 0,
  and_mask w (a / 2 ^ k),
  bit_and-zero (a % 2 ^ k),
)

pub zero-bit_or : (b : ℕ) → bit_or 0 b ≡ b
zero-bit_or b = bit_or-bitwise 0 b

-- Bits put into a gap.
pub or_gap :
    (k w high low v : ℕ)
    → low < 2 ^ k
    → v * 2 ^ k < 2 ^ (k + w)
    → low < 2 ^ (k + w)
    → bit_or (high * 2 ^ (k + w) + low) (v * 2 ^ k) ≡ high * 2 ^ (k + w) + v * 2 ^ k + low
or_gap k w high low v hl hv hw = ground (
  arith,
  one-le-pow k 2,
  or_split (k + w) high low 0 (v * 2 ^ k),
  or_split k 0 low v 0,
  bit_or-zero high,
  bit_or-zero low,
  zero-bit_or v,
)
