-- ===== src/Codec/Name/Skip/Agree.antt =====
-- `Name::skip_rr` against `Name::read_question` (src/codec/name.rs): where the question reader
-- accepts a name, the skip ends at the same cursor; a pointer to such a name takes two octets.
use sagittarius.Prelude.{
  ℕ, zero, suc, ◌+◌, ◌-◌, ◌*◌, ◌≤◌, ◌<◌, bit_and, ◌≡◌, refl, sym, ap, ◌∙◌, subst, Bool, true, false,
  List, [], ◌∷◌, ◌++◌, map, append_assoc, arith, length, drop, All, length-append, length-drop,
  get_elem?_front, drop-append,
}
use sagittarius.Prelude.Bits.{and_top_bits, and_low_bits}
use sagittarius.Codec.Error.{ok}
use sagittarius.Codec.Reader.{Bytes, Reader, advance, read_slice}
use sagittarius.Codec.Reader.Laws.{rest, rest-advance, read_slice_front}
use sagittarius.Codec.Name.{Name, read_question}
use sagittarius.Codec.Name.Label.{length-lower}
use sagittarius.Codec.Name.Valid.{IsLabel, wire}
use sagittarius.Codec.Name.Accepts.{lower_label, read_question-Between}
use sagittarius.Codec.Name.Question.{advance-advance}
use sagittarius.Codec.Name.Skip.{
  SkipState, return, continue, octet_at, sync_reader, skip_round, skip_loop, start, skip_fuel,
  skip_rr,
}

octet_at_front : (msg : Bytes) (p b : ℕ) (xs : Bytes) → drop p msg ≡ b ∷ xs → octet_at msg p ≡ ok b
unfolding octet_at
octet_at_front msg p b xs h = rw (get_elem?_front msg p xs h, octet_at)

-- Octets that can stand before a label.
abbrev pub HasSize : Bytes → Type 0
HasSize l = (1 ≤ length l) × (length l ≤ 63)

plain_octet : (b : ℕ) → b ≤ 63 → bit_and b 0xc0 ≡ 0
plain_octet b h = omega (arith, and_top_bits b)

-- One label, on the way to the first pointer (`fixed` is false) and after it.
skip_round-label :
    (msg : Bytes) (s : SkipState) (l xs : Bytes)
    → HasSize l
    → s.total_label_bytes + length l ≤ 255
    → drop s.cur_pos msg ≡ length l ∷ (l ++ xs)
    → (r' : Reader) → sync_reader s.fixed_reader s.reader (1 + length l) ≡ ok r'
    → skip_round msg s
      ≡ ok (
          continue (record s {
            reader = r';
            cur_pos = s.cur_pos + 1 + length l;
            total_label_bytes = s.total_label_bytes + length l;
          }))
unfolding skip_round
skip_round-label msg s l xs size fits h r' e = ground (
  arith,
  octet_at_front msg s.cur_pos (length l) (l ++ xs) h,
  plain_octet (length l) size.1,
  length-drop s.cur_pos msg,
  ap length h,
  length-append l xs,
  e,
)

skip_round-root :
    (msg : Bytes) (s : SkipState) (xs : Bytes)
    → drop s.cur_pos msg ≡ 0 ∷ xs
    → (r' : Reader) → sync_reader s.fixed_reader s.reader (s.cur_pos + 1 - s.reader.pos) ≡ ok r'
    → skip_round msg s ≡ ok (return r')
unfolding skip_round
skip_round-root msg s xs h r' e =
    ground (arith, octet_at_front msg s.cur_pos 0 xs h, plain_octet 0 (omega arith), e)

wire_pos : (ls : List Bytes) → 1 ≤ length (wire ls)
wire_pos [] = omega arith
wire_pos (l ∷ ls) = omega arith

long : (l : Bytes) (ls : List Bytes) → length (wire (l ∷ ls)) ≡ 1 + (length l + length (wire ls))
long l ls = omega (arith, length-append l (wire ls))

behind_label :
    (msg : Bytes) (p : ℕ) (l ys : Bytes)
    → drop p msg ≡ length l ∷ (l ++ ys)
    → drop (p + 1 + length l) msg ≡ ys
behind_label msg p l ys h =
    subst (λ (q : ℕ). drop q msg ≡ ys) (omega arith) (drop-append p msg (length l ∷ l) ys h)

abbrev state : Reader → Bool → ℕ → ℕ → ℕ → SkipState
state r fixed p hops total = record {
  reader = r;
  cur_pos = p;
  fixed_reader = fixed;
  hops = hops;
  total_label_bytes = total;
}

-- The skip after a pointer: it walks the labels and returns the cursor that it was given.
skip_loop-followed :
    (raws : List Bytes) (fuel : ℕ) (msg : Bytes) (r : Reader) (p hops total : ℕ) (xs : Bytes)
    → All HasSize raws
    → length raws < fuel
    → total + length (wire raws) ≤ 256
    → drop p msg ≡ wire raws ++ xs
    → skip_loop fuel msg (state r true p hops total) ≡ ok r
unfolding skip_loop sync_reader
skip_loop-followed raws zero msg r p hops total xs h hf hw hd = absurd (omega arith)
skip_loop-followed [] (suc fuel) msg r p hops total xs h hf hw hd =
    rw (skip_round-root msg (state r true p hops total) xs hd r refl) refl
skip_loop-followed (l ∷ ls) (suc fuel) msg r p hops total xs h hf hw hd =
    let front = hd ∙ ap (◌∷◌ (length l)) (append_assoc l (wire ls) xs) in
    rw
      (skip_round-label msg (state r true p hops total) l (wire ls ++ xs) h.0
        (omega (arith, long l ls, wire_pos ls)) front r refl)
      (skip_loop-followed ls fuel msg r (p + 1 + length l) hops (total + length l) xs h.1
        (omega arith) (omega (arith, long l ls)) (behind_label msg p l (wire ls ++ xs) front))

-- Before any pointer the reader moves along.
sync_label :
    (r : Reader) (l ys : Bytes)
    → rest r ≡ length l ∷ (l ++ ys)
    → sync_reader false r (1 + length l) ≡ ok (advance r (1 + length l))
unfolding sync_reader
sync_label r l ys h =
    let e : 1 + length l ≡ length (length l ∷ l) = omega arith in
    rw (
      e,
      read_slice_front r (length l ∷ l) ys (omega (arith, length-drop r.pos r.buf, ap length h)) h,
    )

sync_root :
    (r : Reader) (ys : Bytes)
    → rest r ≡ 0 ∷ ys
    → sync_reader false r (r.pos + 1 - r.pos) ≡ ok (advance r 1)
unfolding sync_reader
sync_root r ys h =
    let e : r.pos + 1 - r.pos ≡ 1 = omega arith in
    rw (e, read_slice_front r (0 ∷ []) ys (omega (arith, length-drop r.pos r.buf, ap length h)) h)

rest_label :
    (r : Reader) (l ys : Bytes)
    → rest r ≡ length l ∷ (l ++ ys)
    → rest (advance r (1 + length l)) ≡ ys
rest_label r l ys h =
    subst (λ (n : ℕ). rest (advance r n) ≡ ys) (omega arith) (rest-advance r (length l ∷ l) ys h)

skip_loop-direct :
    (raws : List Bytes) (fuel : ℕ) (r : Reader) (hops total : ℕ) (xs : Bytes)
    → All HasSize raws
    → length raws < fuel
    → total + length (wire raws) ≤ 256
    → rest r ≡ wire raws ++ xs
    → skip_loop fuel r.buf (state r false r.pos hops total) ≡ ok (advance r (length (wire raws)))
unfolding skip_loop
skip_loop-direct raws zero r hops total xs h hf hw hd = absurd (omega arith)
skip_loop-direct [] (suc fuel) r hops total xs h hf hw hd =
    rw
      (skip_round-root r.buf (state r false r.pos hops total) xs hd (advance r 1)
        (sync_root r xs hd))
      refl
skip_loop-direct (l ∷ ls) (suc fuel) r hops total xs h hf hw hd =
    let front = hd ∙ ap (◌∷◌ (length l)) (append_assoc l (wire ls) xs) in
    let r2 = advance r (1 + length l) in
    let later =
      skip_loop-direct ls fuel r2 hops (total + length l) xs h.1 (omega arith)
        (omega (arith, long l ls)) (rest_label r l (wire ls ++ xs) front) in
    rw
      (skip_round-label r.buf (state r false r.pos hops total) l (wire ls ++ xs) h.0
        (omega (arith, long l ls, wire_pos ls)) front r2 (sync_label r l (wire ls ++ xs) front))
      (subst
        (λ (q : ℕ).
          skip_loop fuel r.buf (state r2 false q hops (total + length l))
          ≡ ok (advance r (length (wire (l ∷ ls)))))
        (omega arith)
        (later
          ∙ ap ok
              (advance-advance r (1 + length l) (length (wire ls)) _ (omega (arith, long l ls)))))

count_labels : (raws : List Bytes) → All HasSize raws → 2 * length raws + 1 ≤ length (wire raws)
count_labels [] h = omega arith
count_labels (l ∷ ls) h = omega (arith, long l ls, h.0, count_labels ls h.1)

sizes : (raws : List Bytes) → All IsLabel (map lower_label raws) → All HasSize raws
sizes [] h = tt
sizes (l ∷ ls) h = (
  (omega (arith, h.0.lower, length-lower l), omega (arith, h.0.upper, length-lower l)),
  sizes ls h.1,
)

-- A name in plain form: the cursor ends behind its root octet.
pub skip_rr-wire :
    (r : Reader) (raws : List Bytes) (xs : Bytes)
    → All HasSize raws
    → length (wire raws) ≤ 255
    → rest r ≡ wire raws ++ xs
    → skip_rr r ≡ ok (advance r (length (wire raws)))
unfolding skip_rr
skip_rr-wire r raws xs h fits hd =
    skip_loop-direct raws skip_fuel r 0 0 xs h (omega (arith, count_labels raws h)) (omega arith) hd

-- Where the question reader accepts a name, the skip ends at the same cursor.
pub skip_rr-read_question :
    (r : Reader) {n : Name} {r' : Reader} → read_question r ≡ ok (n, r') → skip_rr r ≡ ok r'
skip_rr-read_question r h =
    let (raws, b, hn) = read_question-Between r h in
    skip_rr-wire r raws _ (sizes raws b.are_labels) (omega (arith, b.fits)) b.stood
    ∙ ap ok (sym b.moved)

skip_round-pointer :
    (r : Reader) (hi lo : ℕ) (xs : Bytes)
    → hi < 64
    → hi * 256 + lo < r.pos
    → rest r ≡ (192 + hi) ∷ lo ∷ xs
    → skip_round r.buf (start r) ≡ ok (continue (state (advance r 2) true (hi * 256 + lo) 1 0))
unfolding skip_round sync_reader
skip_round-pointer r hi lo xs hh before h = ground (
  arith,
  octet_at_front r.buf r.pos (192 + hi) (lo ∷ xs) h,
  octet_at_front r.buf (r.pos + 1) lo xs (drop-append r.pos r.buf ((192 + hi) ∷ []) (lo ∷ xs) h),
  slice,
  and_top_bits (192 + hi),
  and_low_bits (192 + hi),
  length-drop r.pos r.buf,
  ap length h,
)
  where
    slice : read_slice r (r.pos + 1 + 1 - r.pos) ≡ ok ((192 + hi) ∷ lo ∷ [], advance r 2)
    slice =
        let e : r.pos + 1 + 1 - r.pos ≡ 2 = omega arith in
        rw e (
          read_slice_front r ((192 + hi) ∷ lo ∷ []) xs
            (omega (arith, length-drop r.pos r.buf, ap length h)) h)

-- A pointer back to a name: the cursor ends behind the two octets of the pointer.
skip_rr-pointer :
    (r : Reader) (hi lo : ℕ) (xs : Bytes) (raws : List Bytes) (ys : Bytes)
    → hi < 64
    → hi * 256 + lo < r.pos
    → rest r ≡ (192 + hi) ∷ lo ∷ xs
    → All HasSize raws
    → length (wire raws) ≤ 255
    → drop (hi * 256 + lo) r.buf ≡ wire raws ++ ys
    → skip_rr r ≡ ok (advance r 2)
unfolding skip_rr skip_loop
skip_rr-pointer r hi lo xs raws ys hh before h size fits target =
    rw (skip_round-pointer r hi lo xs hh before h) (
      skip_loop-followed raws 271 r.buf (advance r 2) (hi * 256 + lo) 1 0 ys size
        (omega (arith, count_labels raws size)) (omega arith) target)
