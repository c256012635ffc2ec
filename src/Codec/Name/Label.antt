-- ===== src/Codec/Name/Label.antt =====
-- `validate_label` of src/codec/name.rs against the description of a label.
use sagittarius.Prelude.{
  ℕ, suc, ◌≤◌, ◌≡◌, refl, ap, ap₂, inl, inr, true, false, ◌||◌, [], ◌∷◌, map, arith, ◌==◌,
  Bool-cases, length, All,
}
use sagittarius.Codec.Error.{ok}
use sagittarius.Codec.Reader.{Bytes}
use sagittarius.Codec.Name.{
  to_ascii_lowercase, is_ascii_alphanumeric, first_is, last_is, validate_bytes, validate_label,
}
use sagittarius.Codec.Name.Valid.{IsLabelByte, Starts, Ends, IsLabel}

lower_byte :
    (b : ℕ)
    → (is_ascii_alphanumeric b || b == b'-' || b == b'_') ≡ true
    → IsLabelByte (to_ascii_lowercase b)
unfolding is_ascii_alphanumeric to_ascii_lowercase
lower_byte b h = ground arith

validate_bytes-lower :
    (l : Bytes) → validate_bytes l ≡ ok tt → All IsLabelByte (map to_ascii_lowercase l)
unfolding validate_bytes
validate_bytes-lower [] h = tt
validate_bytes-lower (b ∷ bs) h =
    elim (Bool-cases (is_ascii_alphanumeric b || b == b'-' || b == b'_')) [
      | inl e ↦ (lower_byte b e, validate_bytes-lower bs (ground (arith, e)))
      | inr e ↦ absurd (ground (arith, e))
    ]

label_byte_ok : (b : ℕ) → IsLabelByte b → (is_ascii_alphanumeric b || b == b'-' || b == b'_') ≡ true
unfolding is_ascii_alphanumeric
label_byte_ok b h = ground arith

validate_bytes-label : (l : Bytes) → All IsLabelByte l → validate_bytes l ≡ ok tt
unfolding validate_bytes
validate_bytes-label [] h = refl
validate_bytes-label (b ∷ bs) h = ground (arith, label_byte_ok b h.0, validate_bytes-label bs h.1)

lower_fixed : (b : ℕ) → IsLabelByte b → to_ascii_lowercase b ≡ b
unfolding to_ascii_lowercase
lower_fixed b h = ground arith

-- Lowercasing leaves the bytes of a normalized label alone.
pub map-lower : (l : Bytes) → All IsLabelByte l → map to_ascii_lowercase l ≡ l
map-lower [] h = refl
map-lower (b ∷ bs) h = ap₂ ◌∷◌ (lower_fixed b h.0) (map-lower bs h.1)

lower_hyphen : (b : ℕ) → to_ascii_lowercase b ≡ b'-' → b ≡ b'-'
unfolding to_ascii_lowercase
lower_hyphen b h = ground arith

no_start_lower : (l : Bytes) → first_is b'-' l ≡ false → ¬ (Starts b'-' (map to_ascii_lowercase l))
unfolding first_is
no_start_lower [] h s = s
no_start_lower (b ∷ bs) h s = ground (arith, lower_hyphen b s)

no_end_lower : (l : Bytes) → last_is b'-' l ≡ false → ¬ (Ends b'-' (map to_ascii_lowercase l))
unfolding last_is
no_end_lower [] h s = s
no_end_lower (b ∷ []) h s = ground (arith, lower_hyphen b s)
no_end_lower (b ∷ c ∷ cs) h s = no_end_lower (c ∷ cs) h s

first_is-Starts : (l : Bytes) → ¬ (Starts b'-' l) → first_is b'-' l ≡ false
unfolding first_is
first_is-Starts [] h = refl
first_is-Starts (b ∷ bs) h = ground (arith, h)

last_is-Ends : (l : Bytes) → ¬ (Ends b'-' l) → last_is b'-' l ≡ false
unfolding last_is
last_is-Ends [] h = refl
last_is-Ends (b ∷ []) h = ground (arith, h)
last_is-Ends (b ∷ c ∷ cs) h = last_is-Ends (c ∷ cs) h

pub length-lower : (l : Bytes) → length (map to_ascii_lowercase l) ≡ length l
length-lower [] = refl
length-lower (b ∷ bs) = ap suc (length-lower bs)

-- What `validate_label` lets through is, in lower case, a label.
pub validate_label-IsLabel :
    (l : Bytes)
    → 1 ≤ length l
    → length l ≤ 63
    → validate_label l ≡ ok tt
    → IsLabel (map to_ascii_lowercase l)
unfolding validate_label
validate_label-IsLabel l lo hi h = elim (Bool-cases (first_is b'-' l || last_is b'-' l)) [
  | inl e ↦ absurd (ground (arith, e))
  | inr e ↦ record {
    lower = omega (arith, length-lower l);
    upper = omega (arith, length-lower l);
    bytes = validate_bytes-lower l (ground (arith, e));
    no_start = no_start_lower l (ground (arith, e));
    no_end = no_end_lower l (ground (arith, e));
  }
]

-- Every label passes.
pub validate_label-label : (l : Bytes) → IsLabel l → validate_label l ≡ ok tt
unfolding validate_label
validate_label-label l h =
    ground
      (arith, first_is-Starts l h.no_start, last_is-Ends l h.no_end, validate_bytes-label l h.bytes)
