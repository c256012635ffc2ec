-- ===== src/Codec/Name/Reverse/Labels.antt =====
-- The labels of reverse names (src/codec/name.rs): octets in decimal and nibbles in hexadecimal.
use sagittarius.Prelude.{
  ℕ, ◌+◌, ◌/◌, ◌%◌, ◌≤◌, ◌<◌, bit_and, ◌≡◌, ap, inl, inr, some, ◌∷◌, arith, ltb, ltb→lt, Bool-cases,
  length,
}
use sagittarius.Prelude.Bits.{and_mask, or_split, bit_or-zero, zero-bit_or}
use sagittarius.Codec.Reader.{Bytes}
use sagittarius.Codec.Name.Valid.{IsLabelByte, IsLabel}
use sagittarius.Codec.Name.Reverse.{decimal, parse_u8, to_digit, nibble, pack, show_u8, show_nibble}

pub parse_u8-show_u8 : (v : ℕ) → v < 256 → parse_u8 (show_u8 v) ≡ some v
unfolding parse_u8 decimal show_u8
parse_u8-show_u8 v h = elim (Bool-cases (ltb v 10)) [
  | inl one ↦ rw one (ground (arith, h, one))
  | inr more ↦ elim (Bool-cases (ltb v 100)) [
    | inl two ↦ rw (more, two) (ground (arith, h, more, two))
    | inr three ↦ rw (more, three) (ground (arith, h, three))
  ]
]

pub nibble-show_nibble : (n : ℕ) → n < 16 → nibble (show_nibble n) ≡ some n
unfolding nibble to_digit show_nibble
nibble-show_nibble n h = ground (arith, h)

pub show_nibble-IsLabel : (n : ℕ) → n < 16 → IsLabel (show_nibble n)
unfolding show_nibble
show_nibble-IsLabel n h = elim (Bool-cases (ltb n 10)) [
  | inl few ↦ rw few (record {
    lower = omega arith;
    upper = omega arith;
    bytes = (inr (inl (omega arith, omega (arith, ltb→lt n 10 few))), tt);
    no_start = λ e. omega (arith, e);
    no_end = λ e. omega (arith, e);
  })
  | inr more ↦ rw more (record {
    lower = omega arith;
    upper = omega arith;
    bytes = (inl (ground (arith, h, more)), tt);
    no_start = λ e. ground (arith, e, more);
    no_end = λ e. ground (arith, e, more);
  })
]

digit-IsLabelByte : (d : ℕ) → d < 10 → IsLabelByte (b'0' + d)
digit-IsLabelByte d h = inr (inl (omega arith, omega (arith, h)))

pub show_u8-IsLabel : (v : ℕ) → v < 256 → IsLabel (show_u8 v)
unfolding show_u8
show_u8-IsLabel v h = elim (Bool-cases (ltb v 10)) [
  | inl one ↦ rw one (record {
    lower = omega arith;
    upper = omega arith;
    bytes = (digit-IsLabelByte v (ltb→lt v 10 one), tt);
    no_start = λ e. omega (arith, e);
    no_end = λ e. omega (arith, e);
  })
  | inr more ↦ elim (Bool-cases (ltb v 100)) [
    | inl two ↦
        rw (more, two)
          (record {
            lower = omega arith;
            upper = omega arith;
            bytes = (
              digit-IsLabelByte (v / 10) (omega (arith, ltb→lt v 100 two)),
              (digit-IsLabelByte (v % 10) (omega arith), tt),
            );
            no_start = λ e. omega (arith, e);
            no_end = λ e. omega (arith, e);
          })
    | inr three ↦
        rw (more, three)
          (record {
            lower = omega arith;
            upper = omega arith;
            bytes = (
              digit-IsLabelByte (v / 100) (omega (arith, h)),
              (
                digit-IsLabelByte (v / 10 % 10) (omega arith),
                (digit-IsLabelByte (v % 10) (omega arith), tt),
              ),
            );
            no_start = λ e. omega (arith, e);
            no_end = λ e. omega (arith, e);
          })
  ]
]

pub length-show_u8 : (v : ℕ) → length (show_u8 v) ≤ 3
unfolding show_u8
length-show_u8 v = elim (Bool-cases (ltb v 10)) [
  | inl one ↦ rw one (omega arith)
  | inr more ↦ elim (Bool-cases (ltb v 100)) [
    | inl two ↦ rw (more, two) (omega arith)
    | inr three ↦ rw (more, three) (omega arith)
  ]
]

pub pack_octet :
    (a : ℕ) (digits : Bytes) → a < 256 → pack (a / 16 ∷ bit_and a 15 ∷ digits) ≡ a ∷ pack digits
unfolding pack
pack_octet a digits h =
    ap (λ o. o ∷ pack digits)
      (ground (
        arith,
        and_mask 4 a,
        or_split 4 (a / 16) 0 0 (a % 16),
        bit_or-zero (a / 16),
        zero-bit_or (a % 16),
      ))
