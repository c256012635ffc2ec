-- ===== src/Codec/Name/Question.antt =====
-- `Name::read_question` of src/codec/name.rs: it reads back what `write` wrote, it ends, and what
-- it accepts is a valid name.
use sagittarius.Prelude.{
  ℕ, zero, suc, ◌+◌, ◌≤◌, ◌<◌, bit_and, ◌≡◌, refl, sym, ap, ap₂, ◌∙◌, false, List, [], ◌∷◌, ◌++◌,
  append_assoc, append-nil, arith, ◌==◌, le→ltb, length, All, length-append, length-drop,
}
use sagittarius.Prelude.Bits.{and_top_bits}
use sagittarius.Codec.Error.{ok}
use sagittarius.Codec.Reader.{Bytes, Reader, advance}
use sagittarius.Codec.Reader.Laws.{rest, rest-advance, read_u8_front, read_slice_front}
use sagittarius.Codec.Name.{
  Name, read_label, read_octet, read_labels, from_normalized, question_fuel, read_question,
}
use sagittarius.Codec.Name.Label.{map-lower, validate_label-label}
use sagittarius.Codec.Name.Valid.{IsLabel, wire, dotted, text, wire_size, IsValid}

small_octet : (b : ℕ) → b ≤ 63 → (bit_and b 0xc0 == 0xc0) ≡ false
small_octet b h = ground (arith, and_top_bits b)

pub advance-advance : (r : Reader) (m n k : ℕ) → m + n ≡ k → advance (advance r m) n ≡ advance r k
advance-advance r m n k h = ground arith

pub cursor_in_range : (r : Reader) (x : ℕ) (xs : Bytes) → rest r ≡ x ∷ xs → r.pos + 1 ≤ length r.buf
cursor_in_range r x xs h = omega (arith, length-drop r.pos r.buf, ap length h)

read_label-label :
    (r : Reader) (l xs : Bytes) (wire_len : ℕ)
    → IsLabel l
    → wire_len + (1 + length l) ≤ 255
    → r.pos ≤ length r.buf
    → rest r ≡ l ++ xs
    → read_label r (length l) wire_len ≡ ok (l, wire_len + (1 + length l), advance r (length l))
unfolding read_label
read_label-label r l xs wire_len h fits hp hr =
    rw
      (
        le→ltb 63 (length l) h.upper,
        le→ltb 255 (wire_len + (1 + length l)) fits,
        read_slice_front r l xs hp hr,
        validate_label-label l h,
      )
      refl

read_labels-wire :
    (ls : List Bytes) (fuel : ℕ) (r : Reader) (normalized : Bytes) (wire_len : ℕ) (xs : Bytes)
    → All IsLabel ls
    → length ls < fuel
    → wire_len + length (wire ls) ≤ 256
    → rest r ≡ wire ls ++ xs
    → read_labels fuel r normalized wire_len
      ≡ ok (normalized ++ dotted ls, advance r (length (wire ls)))
unfolding read_labels read_octet
read_labels-wire ls zero r normalized wire_len xs h hf hw hr = absurd (omega arith)
read_labels-wire [] (suc fuel) r normalized wire_len xs h hf hw hr =
    rw (read_u8_front r 0 xs hr, append-nil)
read_labels-wire (l ∷ ls) (suc fuel) r normalized wire_len xs h hf hw hr =
    rw
      (
        read_u8_front r (length l) after_octet front,
        small_octet (length l) h.0.upper,
        nonzero,
        read_label-label (advance r 1) l (wire ls ++ xs) wire_len h.0
            (omega (arith, long, wire_size ls h.1)) (cursor_in_range r _ _ front) label_front,
        map-lower l h.0.bytes,
        read_labels-wire ls fuel r2 (normalized ++ (l ++ (b'.' ∷ []))) (wire_len + (1 + length l))
            xs h.1 (omega arith) (omega (arith, long)) labels_front,
      )
      (ap₂ (λ (t : Bytes) (s : Reader). ok (t, s)) texts cursors)
  where
    after_octet : Bytes
    after_octet = l ++ (wire ls ++ xs)

    front : rest r ≡ length l ∷ after_octet
    front = hr ∙ ap (◌∷◌ (length l)) (append_assoc l (wire ls) xs)

    nonzero : (length l == 0) ≡ false
    nonzero = ground (arith, h.0.lower)

    long : length (wire (l ∷ ls)) ≡ 1 + (length l + length (wire ls))
    long = omega (arith, length-append l (wire ls))

    label_front : rest (advance r 1) ≡ l ++ (wire ls ++ xs)
    label_front = rest-advance r (length l ∷ []) after_octet front

    r2 : Reader
    r2 = advance (advance r 1) (length l)

    labels_front : rest r2 ≡ wire ls ++ xs
    labels_front = rest-advance (advance r 1) l (wire ls ++ xs) label_front

    texts : (normalized ++ (l ++ (b'.' ∷ []))) ++ dotted ls ≡ normalized ++ dotted (l ∷ ls)
    texts =
        append_assoc normalized (l ++ (b'.' ∷ [])) (dotted ls)
        ∙ ap (◌++◌ normalized) (append_assoc l (b'.' ∷ []) (dotted ls))

    cursors : advance r2 (length (wire ls)) ≡ advance r (length (wire (l ∷ ls)))
    cursors =
        advance-advance (advance r 1) (length l) (length (wire ls)) _ refl
        ∙ advance-advance r 1 (length l + length (wire ls)) _ (sym long)

pub from_normalized-text :
    (ls : List Bytes) → All IsLabel ls → from_normalized (dotted ls) ≡ record { inner = text ls }
unfolding from_normalized
from_normalized-text [] h = refl
from_normalized-text ([] ∷ ls) h = absurd (omega (arith, h.0.lower))
from_normalized-text ((b ∷ bs) ∷ ls) h = refl

-- The question reader takes the wire form of a valid name back to the name, and stops behind it.
pub read_question-wire :
    (n : Name) (v : IsValid n) (r : Reader) (xs : Bytes)
    → rest r ≡ wire v.labels ++ xs
    → read_question r ≡ ok (n, advance r (length (wire v.labels)))
unfolding read_question
read_question-wire n v r xs h =
    rw
      (
        read_labels-wire v.labels question_fuel r [] 1 xs v.are_labels
            (omega (arith, wire_size v.labels v.are_labels, v.fits)) (omega (arith, v.fits)) h,
        from_normalized-text v.labels v.are_labels,
      )
      (ap (λ (t : Bytes). ok (record { inner = t }, advance r (length (wire v.labels))))
        (sym v.is_text))
