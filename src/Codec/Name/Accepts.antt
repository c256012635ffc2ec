-- ===== src/Codec/Name/Accepts.antt =====
-- What `Name::read_question` of src/codec/name.rs accepts: labels that are valid once lowercased,
-- within the limits, exactly as they stand in the message.
use sagittarius.Prelude.{
  ℕ, zero, suc, ◌+◌, ◌≤◌, bit_and, ◌≡◌, refl, sym, ap, ap₂, ◌∙◌, subst, ◌≢◌, inl, inr, List, [],
  ◌∷◌, ◌++◌, map, append_assoc, append-nil, arith, ◌==◌, Bool-cases, length, All, length-append,
}
use sagittarius.Codec.Error.{Error, Result, ok, >>=-eq-ok, ok-injective}
use sagittarius.Codec.Reader.{Bytes, Reader, advance, read_u8, read_slice}
use sagittarius.Codec.Reader.Laws.{
  rest, read_u8-Moved, read_slice-Moved, rest-read_u8, rest-read_slice,
}
use sagittarius.Codec.Name.{
  Name, to_ascii_lowercase, validate_label, read_label, read_octet, read_labels, from_normalized,
  question_fuel, read_question,
}
use sagittarius.Codec.Name.Label.{validate_label-IsLabel, length-lower}
use sagittarius.Codec.Name.Question.{advance-advance, from_normalized-text}
use sagittarius.Codec.Name.Valid.{IsLabel, wire, dotted, text, IsValid}

abbrev pub lower_label : Bytes → Bytes
lower_label = map to_ascii_lowercase

-- The labels `raws`, as sent, stand between the cursors `r` and `r'`.
pub record Between (r r' : Reader) (wire_len : ℕ) (raws : List Bytes) : Type 0 where
  pub are_labels : All IsLabel (map lower_label raws)
  pub stood : rest r ≡ wire raws ++ rest r'
  pub fits : wire_len + length (wire raws) ≤ 256
  pub moved : r' ≡ advance r (length (wire raws))

module _ (r : Reader) (label_len wire_len : ℕ) {l : Bytes} {total : ℕ} {r' : Reader} where
  pub read_label_total :
      read_label r label_len wire_len ≡ ok (l, total, r')
      → (label_len ≤ 63)
        × (total ≡ wire_len + (1 + label_len))
        × (total ≤ 255)
        × (validate_label l ≡ ok tt)
        × (read_slice r label_len ≡ ok (l, r'))
  unfolding read_label
  read_label_total h = ground arith

-- A round that succeeds ends at the root, or takes a label and goes on.
data Round (next : Reader → Bytes → ℕ → Result Error (Bytes × Reader)) (normalized : Bytes)
    (wire_len b : ℕ) (r : Reader) (t : Bytes) (r' : Reader) : Type 0 where
  root : b ≡ 0 → t ≡ normalized → r' ≡ r → Round next normalized wire_len b r t r'
  label :
      (l : Bytes) (total : ℕ) (r2 : Reader)
      → b ≢ 0
      → read_label r b wire_len ≡ ok (l, total, r2)
      → next r2 (normalized ++ (lower_label l ++ (b'.' ∷ []))) total ≡ ok (t, r')
      → Round next normalized wire_len b r t r'

module _ (next : Reader → Bytes → ℕ → Result Error (Bytes × Reader)) where
  read_octet-Round :
      (normalized : Bytes) (wire_len b : ℕ) (r : Reader) {t : Bytes} {r' : Reader}
      → read_octet next normalized wire_len b r ≡ ok (t, r')
      → Round next normalized wire_len b r t r'
  unfolding read_octet
  read_octet-Round normalized wire_len b r h = elim (Bool-cases (bit_and b 0xc0 == 0xc0)) [
    | inl c ↦ cc (rw c at h)
    | inr c ↦ elim (Bool-cases (b == 0)) [
      | inl z ↦ root (ground arith) (ground (arith, c)) (ground (arith, c))
      | inr z ↦
          let (q, e, k) = >>=-eq-ok (read_label r b wire_len) _ (rw (c, z) at h) in
          label q.0 q.1 q.2 (ground arith) e k
    ]
  ]

-- The root octet alone.
root_Between :
    (r r1 : Reader) (wire_len : ℕ)
    → wire_len ≤ 255
    → read_u8 r ≡ ok (0, r1)
    → Between r r1 wire_len []
root_Between r r1 wire_len hw e = record {
  are_labels = tt;
  stood = rest-read_u8 r 0 e;
  fits = omega arith;
  moved = (read_u8-Moved r 0 e).0;
}

-- One more label in front.
label_Between :
    (r r1 r2 r' : Reader) (b wire_len total : ℕ) (l : Bytes) (raws : List Bytes)
    → b ≢ 0
    → read_u8 r ≡ ok (b, r1)
    → read_label r1 b wire_len ≡ ok (l, total, r2)
    → Between r2 r' total raws
    → Between r r' wire_len (l ∷ raws)
label_Between r r1 r2 r' b wire_len total l raws z e el w = record {
  are_labels = (
    validate_label-IsLabel l (omega (arith, size)) (omega (arith, facts, size)) facts.3,
    w.are_labels,
  );
  stood =
      rest-read_u8 r b e
      ∙ ap₂ ◌∷◌ (sym size)
          (slice.0 ∙ ap (◌++◌ l) w.stood ∙ sym (append_assoc l (wire raws) (rest r')));
  fits = omega (arith, facts, long, w.fits);
  moved =
      w.moved
      ∙ ap (λ (s : Reader). advance s (length (wire raws)))
          (second ∙ ap (λ (s : Reader). advance s b) first ∙ advance-advance r 1 b (1 + b) refl)
      ∙ advance-advance r (1 + b) (length (wire raws)) _ (omega (arith, long));
}
  where
    facts :
        (b ≤ 63)
        × (total ≡ wire_len + (1 + b))
        × (total ≤ 255)
        × (validate_label l ≡ ok tt)
        × (read_slice r1 b ≡ ok (l, r2))
    facts = read_label_total r1 b wire_len el

    slice : (rest r1 ≡ l ++ rest r2) × (length l ≡ b)
    slice = rest-read_slice r1 b l facts.4

    size : length l ≡ b
    size = slice.1

    long : length (wire (l ∷ raws)) ≡ 1 + (b + length (wire raws))
    long = omega (arith, length-append l (wire raws), size)

    first : r1 ≡ advance r 1
    first = (read_u8-Moved r b e).0

    second : r2 ≡ advance r1 b
    second = (read_slice-Moved r1 b l facts.4).0

read_labels-Between :
    (fuel : ℕ) (r : Reader) (normalized : Bytes) (wire_len : ℕ) {t : Bytes} {r' : Reader}
    → wire_len ≤ 255
    → read_labels fuel r normalized wire_len ≡ ok (t, r')
    → (raws : List Bytes) × Between r r' wire_len raws
      × (t ≡ normalized ++ dotted (map lower_label raws))
unfolding read_labels
read_labels-Between zero r normalized wire_len hw h = cc
read_labels-Between (suc fuel) r normalized wire_len {t} {r'} hw h =
    let (p, e, k) = >>=-eq-ok (read_u8 r) _ h in
    go p.0 p.1 e (read_octet-Round (read_labels fuel) normalized wire_len p.0 p.1 k)
      (λ r2 n2 w2 h2 k2. read_labels-Between fuel r2 n2 w2 h2 k2)
  where
    go :
        (b : ℕ) (r1 : Reader)
        → read_u8 r ≡ ok (b, r1)
        → Round (read_labels fuel) normalized wire_len b r1 t r'
        → ((r2 : Reader) (n2 : Bytes) (w2 : ℕ)
            → w2 ≤ 255
            → read_labels fuel r2 n2 w2 ≡ ok (t, r')
            → (raws : List Bytes) × Between r2 r' w2 raws
              × (t ≡ n2 ++ dotted (map lower_label raws)))
        → (raws : List Bytes) × Between r r' wire_len raws
          × (t ≡ normalized ++ dotted (map lower_label raws))
    go b r1 e (root z ht hr) ih =
        subst
          (λ (s : Reader).
            (raws : List Bytes) × Between r s wire_len raws
            × (t ≡ normalized ++ dotted (map lower_label raws)))
          (sym hr) ([], root_Between r r1 wire_len hw (rw z at e), ht ∙ sym (append-nil normalized))
    go b r1 e (label l total r2 z el k) ih =
        let (raws, w, ht) = ih r2 _ total (read_label_total r1 b wire_len el).2 k in
        (
          l ∷ raws,
          label_Between r r1 r2 r' b wire_len total l raws z e el w,
          ht
              ∙ append_assoc normalized (lower_label l ++ (b'.' ∷ [])) _
              ∙ ap (◌++◌ normalized) (append_assoc (lower_label l) (b'.' ∷ []) _),
        )

-- An accepted name is the lowercase text of the labels that stand in the message.
pub read_question-Between :
    (r : Reader) {n : Name} {r' : Reader}
    → read_question r ≡ ok (n, r')
    → (raws : List Bytes) × Between r r' 1 raws
      × (n ≡ record { inner = text (map lower_label raws) })
unfolding read_question
read_question-Between r {n} {r'} h =
    let (p, e, k) = >>=-eq-ok (read_labels question_fuel r [] 1) _ h in
    go p.0 p.1 e (ap (λ (q : Name × Reader). q.0) (ok-injective k))
      (ap (λ (q : Name × Reader). q.1) (ok-injective k))
  where
    named :
        (t : Bytes) (raws : List Bytes)
        → Between r r' 1 raws
        → from_normalized t ≡ n
        → t ≡ [] ++ dotted (map lower_label raws)
        → n ≡ record { inner = text (map lower_label raws) }
    named t raws b hn ht = sym hn ∙ ap from_normalized ht ∙ from_normalized-text _ b.are_labels

    go :
        (t : Bytes) (s : Reader)
        → read_labels question_fuel r [] 1 ≡ ok (t, s)
        → from_normalized t ≡ n
        → s ≡ r'
        → (raws : List Bytes) × Between r r' 1 raws
          × (n ≡ record { inner = text (map lower_label raws) })
    go t s e hn hs =
        let (raws, b, ht) = read_labels-Between question_fuel r [] 1 (omega arith) (rw hs at e) in
        (raws, b, named t raws b hn ht)

pub length-wire-lower : (ls : List Bytes) → length (wire (map lower_label ls)) ≡ length (wire ls)
length-wire-lower [] = refl
length-wire-lower (l ∷ ls) = omega (
  arith,
  length-append l (wire ls),
  length-append (lower_label l) (wire (map lower_label ls)),
  length-lower l,
  length-wire-lower ls,
)

-- Whatever the bytes, a name that the question reader accepts is valid.
pub read_question-IsValid :
    (r : Reader) {n : Name} {r' : Reader} → read_question r ≡ ok (n, r') → IsValid n
read_question-IsValid r h =
    let (raws, b, hn) = read_question-Between r h in
    record {
      labels = map lower_label raws;
      is_text = ap (λ (m : Name). m.inner) hn;
      are_labels = b.are_labels;
      fits = omega (arith, b.fits, length-wire-lower raws);
    }
