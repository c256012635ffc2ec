-- ===== src/Codec/Name/Ends.antt =====
-- The loop of `Name::read_question` (src/codec/name.rs) ends on every input: each round but the
-- last adds two octets at least to a length that is held to 255.
use sagittarius.Prelude.{ℕ, zero, suc, ◌+◌, ◌*◌, ◌≤◌, ◌≡◌, false, [], ◌∷◌, ◌++◌, map, arith, ◌==◌}
use sagittarius.Codec.Error.{Error, Result, ◌>>=◌, Returns, with_value, >>=-Returns, returns}
use sagittarius.Codec.Reader.{Bytes, Reader, read_u8}
use sagittarius.Codec.Reader.Laws.{read_u8-Returns, read_slice-Returns}
use sagittarius.Codec.Name.{
  validate_bytes, validate_label, read_label, read_octet, read_labels, question_fuel, read_question,
  to_ascii_lowercase,
}
use sagittarius.Codec.Name.Accepts.{read_label_total}

validate_bytes-Returns : (l : Bytes) → Returns (validate_bytes l)
unfolding validate_bytes
validate_bytes-Returns [] = with_value tt
validate_bytes-Returns (b ∷ bs) = search (returns, validate_bytes-Returns bs)

pub validate_label-Returns : (l : Bytes) → Returns (validate_label l)
unfolding validate_label
validate_label-Returns l = search (returns, validate_bytes-Returns)

read_label-Returns : (r : Reader) (b wire_len : ℕ) → Returns (read_label r b wire_len)
unfolding read_label
read_label-Returns r b wire_len = search (returns, read_slice-Returns, validate_label-Returns)

module _ (next : Reader → Bytes → ℕ → Result Error (Bytes × Reader)) (normalized : Bytes)
    (wire_len : ℕ)
    (ih : (r2 : Reader) (n2 : Bytes) (w2 : ℕ)
      → wire_len + 2 ≤ w2
      → w2 ≤ 255
      → Returns (next r2 n2 w2)) where
  next_round-Returns :
      (b : ℕ) (r : Reader)
      → (b == 0) ≡ false
      → Returns (
          read_label r b wire_len >>= λ q.
          next q.2 (normalized ++ (map to_ascii_lowercase q.0 ++ (b'.' ∷ []))) q.1)
  next_round-Returns b r z =
      >>=-Returns (read_label r b wire_len) _ (read_label-Returns r b wire_len) (λ q e.
        let facts = read_label_total r b wire_len e in
        ih q.2 _ q.1 (ground (arith, facts, z)) facts.2)

  read_octet-Returns : (b : ℕ) (r : Reader) → Returns (read_octet next normalized wire_len b r)
  unfolding read_octet
  read_octet-Returns b r = search (returns, next_round-Returns)

read_labels-Returns :
    (fuel : ℕ) (r : Reader) (normalized : Bytes) (wire_len : ℕ)
    → 257 ≤ wire_len + 2 * fuel
    → wire_len ≤ 255
    → Returns (read_labels fuel r normalized wire_len)
unfolding read_labels
read_labels-Returns zero r normalized wire_len h hw = absurd (omega arith)
read_labels-Returns (suc fuel) r normalized wire_len h hw =
    >>=-Returns (read_u8 r) _ (read_u8-Returns r) (λ p _.
      read_octet-Returns (read_labels fuel) normalized wire_len
        (λ r2 n2 w2 grown small. read_labels-Returns fuel r2 n2 w2 (omega arith) small) p.0 p.1)

-- The question reader never runs out of fuel: 128 rounds are enough for every message.
pub read_question-Returns : (r : Reader) → Returns (read_question r)
unfolding read_question
read_question-Returns r =
    >>=-Returns (read_labels question_fuel r [] 1) _
      (read_labels-Returns question_fuel r [] 1 (omega arith) (omega arith)) (λ p _. with_value _)
