-- ===== src/Web/Crypto/Equal.antt =====
-- The comparison of src/web/crypto.rs is equality.
use sagittarius.Prelude.{
  ℕ, zero, suc, ◌+◌, ◌*◌, ◌/◌, ◌%◌, ◌≤◌, bit_or, ◌≡◌, refl, sym, ap, ap₂, ◌∙◌, subst, inl, inr,
  true, [], ◌∷◌, arith, ◌==◌, equal, equal→path, equal_refl, ==_iff, Bool-cases, length,
}
use Prim.Native.Nat.{bit_xor, bit_xor-bitwise, differ}
use sagittarius.Prelude.Bits.{same_digits, or_step, zero-bit_or}
use sagittarius.Codec.Reader.{Bytes}
use sagittarius.Web.Crypto.{differences, ct_eq}

xor_step : (a b : ℕ) → bit_xor a b ≡ bit_xor (a / 2) (b / 2) * 2 + differ (a % 2) (b % 2)
xor_step zero b = omega (arith, bit_xor-bitwise 0 b, bit_xor-bitwise 0 (b / 2))
xor_step (suc a) b = omega (
  arith,
  bit_xor-bitwise (suc a) b,
  bit_xor-bitwise (suc a / 2) (b / 2),
  same_digits (λ c. c) differ (b / 2) a (suc a / 2) (suc a / 2) (omega arith, omega arith),
)

differ-eq-zero : (x y : ℕ) → differ x y ≡ 0 → x ≡ y
differ-eq-zero zero y h = sym h
differ-eq-zero (suc x) zero h = h
differ-eq-zero (suc x) (suc y) h = ap suc (differ-eq-zero x y h)

differ_self : (x : ℕ) → differ x x ≡ 0
differ_self zero = refl
differ_self (suc x) = differ_self x

bit_xor-eq-zero : (n a b : ℕ) → a ≤ n → b ≤ n → bit_xor a b ≡ 0 → a ≡ b
bit_xor-eq-zero zero a b ha hb h = omega (arith, ha, hb)
bit_xor-eq-zero (suc n) a b ha hb h =
    let low : differ (a % 2) (b % 2) ≡ 0 = omega (arith, xor_step a b, h) in
    let high : bit_xor (a / 2) (b / 2) ≡ 0 = omega (arith, xor_step a b, h) in
    let halves = bit_xor-eq-zero n (a / 2) (b / 2) (omega (arith, ha)) (omega (arith, hb)) high in
    omega (arith, halves, differ-eq-zero (a % 2) (b % 2) low)

bit_xor_self : (n a : ℕ) → a ≤ n → bit_xor a a ≡ 0
bit_xor_self zero zero h = refl
bit_xor_self zero (suc a) h = absurd (omega (arith, h))
bit_xor_self (suc n) a h =
    omega (arith, xor_step a a, bit_xor_self n (a / 2) (omega (arith, h)), differ_self (a % 2))

bit_or-eq-zero : (n a b : ℕ) → a ≤ n → b ≤ n → bit_or a b ≡ 0 → (a ≡ 0) × (b ≡ 0)
bit_or-eq-zero zero a b ha hb h = omega (arith, ha, hb)
bit_or-eq-zero (suc n) a b ha hb h =
    let high : bit_or (a / 2) (b / 2) ≡ 0 = omega (arith, or_step a b, h) in
    let halves = bit_or-eq-zero n (a / 2) (b / 2) (omega (arith, ha)) (omega (arith, hb)) high in
    omega (arith, or_step a b, h, halves.0, halves.1)

differences-zero :
    (diff : ℕ) (a b : Bytes) → length a ≡ length b → differences diff a b ≡ 0 → (diff ≡ 0) × (a ≡ b)
unfolding differences
differences-zero diff [] [] e h = (h, refl)
differences-zero diff [] (y ∷ b) e h = absurd (omega (arith, e))
differences-zero diff (x ∷ a) [] e h = absurd (omega (arith, e))
differences-zero diff (x ∷ a) (y ∷ b) e h =
    let (joined, rest) = differences-zero (bit_or diff (bit_xor x y)) a b (omega (arith, e)) h in
    let (old, new) =
      bit_or-eq-zero (diff + bit_xor x y) diff (bit_xor x y) (omega arith) (omega arith) joined in
    (old, ap₂ ◌∷◌ (bit_xor-eq-zero (x + y) x y (omega arith) (omega arith) new) rest)

differences_self : (a : Bytes) → differences 0 a a ≡ 0
unfolding differences
differences_self [] = refl
differences_self (x ∷ a) = rw (bit_xor_self x x (omega arith), zero-bit_or 0) (differences_self a)

pub ct_eq→path : (a b : Bytes) → ct_eq a b ≡ true → a ≡ b
unfolding ct_eq
ct_eq→path a b h = elim (Bool-cases (length a == length b)) [
  | inl e ↦
      (differences-zero 0 a b ((==_iff (length a) (length b)).0 e) ((==_iff _ 0).0 (rw e at h))).1
  | inr e ↦ absurd (cc (rw e at h))
]

pub ct_eq_refl : (a : Bytes) → ct_eq a a ≡ true
unfolding ct_eq
ct_eq_refl a =
    let same : (length a == length a) ≡ true = ground arith in rw (same, differences_self a) refl

-- The constant-time comparison of two strings is their equality.
pub ct_eq-equal : (a b : Bytes) → ct_eq a b ≡ equal a b
ct_eq-equal a b = elim (Bool-cases (equal a b)) [
  | inl e ↦ subst (λ c. ct_eq a c ≡ equal a b) (equal→path a b e) (ct_eq_refl a ∙ sym e)
  | inr e ↦ elim (Bool-cases (ct_eq a b)) [
    | inl t ↦
        absurd (cc (sym e ∙ (subst (λ c. equal a c ≡ true) (ct_eq→path a b t) (equal_refl a))))
    | inr f ↦ f ∙ sym e
  ]
]
