-- ===== src/Codec/Ttl/Sound.antt =====
-- What `TtlScan::scan` of src/codec/ttl.rs finds: TTL fields inside the message, apart from one
-- another and from the header, and the least of their values.
use sagittarius.Prelude.{
  ℕ, zero, suc, ◌+◌, ◌≤◌, ◌≡◌, refl, sym, ap, ◌∙◌, subst, inl, inr, Option, none, some, List, [],
  ◌∷◌, ◌++◌, map, arith, ◌==◌, Bool-cases, Option-cases, length, take, drop, All,
}
use sagittarius.Codec.Error.{ok, >>=-eq-ok, ok-injective}
use sagittarius.Codec.Reader.{Bytes, Reader, new, be_u32, get_range, read_u16, read_u32, read_slice}
use sagittarius.Codec.Reader.Laws.{Moved, read_u16-Moved, read_u32-Moved, read_slice-Moved}
use sagittarius.Codec.Name.Skip.{skip_rr}
use sagittarius.Codec.Name.Skip.Bounds.{skip_rr-IsBehind}
use sagittarius.Codec.Header
use sagittarius.Codec.Header.Wire.{header_cases}
use sagittarius.Codec.Header.{Header}
use sagittarius.Codec.Ttl.{
  TtlScan, Field, skip_questions, read_record, lower, tally, scan_records, no_records, scan,
}

-- The big-endian number of four octets at an offset.
abbrev pub ttl_at : Bytes → ℕ → ℕ
ttl_at message offset = be_u32 (take 4 (drop offset message))

-- The least number of a list.
abbrev pub least : List ℕ → Option ℕ
least [] = none
least (x ∷ xs) = some (lower (least xs) x)

-- Fields of four octets, in order and apart, none before `from`.
abbrev pub Apart : ℕ → List ℕ → Type 0
Apart from [] = Unit
Apart from (o ∷ os) = (from ≤ o) × Apart (o + 4) os

least_snoc : (xs : List ℕ) (x : ℕ) → least (xs ++ (x ∷ [])) ≡ some (lower (least xs) x)
least_snoc [] x = refl
least_snoc (y ∷ ys) x = elim (Option-cases (least ys)) [
  | inl e ↦ rw (least_snoc ys x, e) (ap some (omega arith))
  | inr (m, e) ↦ rw (least_snoc ys x, e) (ap some (omega arith))
]

map_snoc : (f : ℕ → ℕ) (os : List ℕ) (o : ℕ) → map f (os ++ (o ∷ [])) ≡ map f os ++ (f o ∷ [])
map_snoc f [] o = refl
map_snoc f (p ∷ ps) o = ap (◌∷◌ (f p)) (map_snoc f ps o)

-- The fields end before `to`.
abbrev pub Before : ℕ → List ℕ → Type 0
Before to = All (λ o. o + 4 ≤ to)

Before-later : (a b : ℕ) (os : List ℕ) → a ≤ b → Before a os → Before b os
Before-later a b [] h v = tt
Before-later a b (o ∷ os) h v = (omega (arith, v.0), Before-later a b os h v.1)

Before-snoc :
    (to : ℕ) (os : List ℕ) (o : ℕ) → Before to os → o + 4 ≤ to → Before to (os ++ (o ∷ []))
Before-snoc to [] o v h = (h, tt)
Before-snoc to (p ∷ ps) o v h = (v.0, Before-snoc to ps o v.1 h)

Apart-snoc :
    (from : ℕ) (os : List ℕ) (o : ℕ)
    → Apart from os
    → Before o os
    → from ≤ o
    → Apart from (os ++ (o ∷ []))
Apart-snoc from [] o v b h = (h, tt)
Apart-snoc from (p ∷ ps) o v b h = (v.0, Apart-snoc (p + 4) ps o v.1 b.1 b.0)

-- What holds of a scan that has read up to `pos`.
pub record IsScan (message : Bytes) (pos : ℕ) (s : TtlScan) : Type 0 where
  pub apart : Apart 12 s.ttl_offsets
  pub before : Before pos s.ttl_offsets
  pub is_min : s.min_ttl ≡ least (map (ttl_at message) s.ttl_offsets)

-- A cursor inside the message.
pub record IsIn (message : Bytes) (pos : ℕ) (r : Reader) : Type 0 where
  pub same : r.buf ≡ message
  pub behind : pos ≤ r.pos
  pub inside : r.pos ≤ length message

Moved-IsIn :
    (message : Bytes) (pos n : ℕ) (r : Reader) {r' : Reader}
    → IsIn message pos r
    → Moved r n r'
    → IsIn message (pos + n) r'
Moved-IsIn message pos n r {r'} v (m, h) = record {
  same = rw m v.same;
  behind = rw m (omega (arith, v.behind));
  inside = rw m (subst (λ (b : Bytes). r.pos + n ≤ length b) v.same h);
}

skip_rr-IsIn :
    (message : Bytes) (pos : ℕ) (r : Reader) {r' : Reader}
    → IsIn message pos r
    → skip_rr r ≡ ok r'
    → IsIn message (pos + 1) r'
skip_rr-IsIn message pos r {r'} v h =
    let b = skip_rr-IsBehind r (subst (λ (b : Bytes). r.pos ≤ length b) (sym v.same) v.inside) h in
    record {
      same = b.same ∙ v.same;
      behind = omega (arith, v.behind, b.moved);
      inside = subst (λ (b : Bytes). r'.pos ≤ length b) v.same b.inside;
    }

read_u32-ttl_at :
    (message : Bytes) (r : Reader) (v : ℕ) {r' : Reader}
    → r.buf ≡ message
    → read_u32 r ≡ ok (v, r')
    → v ≡ ttl_at message r.pos
unfolding read_u32 get_range
read_u32-ttl_at message r v same h = ground arith

-- A record read at `r`: its TTL field stands behind its owner, and the cursor ends behind the field.
record HasField (message : Bytes) (r : Reader) (f : Field) (r' : Reader) : Type 0 where
  pub from : r.pos + 1 ≤ f.ttl_offset
  pub next : IsIn message (f.ttl_offset + 4) r'
  pub value : f.ttl ≡ ttl_at message f.ttl_offset

read_record-HasField :
    (message : Bytes) (r : Reader) (f : Field) {r' : Reader}
    → IsIn message r.pos r
    → read_record r ≡ ok (f, r')
    → HasField message r f r'
unfolding read_record
read_record-HasField message r f {r'} v h =
    let (r1, e1, k1) = >>=-eq-ok (skip_rr r) _ h in
    let (p2, e2, k2) = >>=-eq-ok (read_u16 r1) _ k1 in
    let (p3, e3, k3) = >>=-eq-ok (read_u16 p2.1) _ k2 in
    let (p4, e4, k4) = >>=-eq-ok (read_u32 p3.1) _ k3 in
    let (p5, e5, k5) = >>=-eq-ok (read_u16 p4.1) _ k4 in
    let (p6, e6, k6) = >>=-eq-ok (read_slice p5.1 p5.0) _ k5 in
    let i1 = skip_rr-IsIn message r.pos r v e1 in
    let i2 = Moved-IsIn message (r.pos + 1) 2 r1 i1 (read_u16-Moved r1 p2.0 e2) in
    let i3 = Moved-IsIn message (r.pos + 1 + 2) 2 p2.1 i2 (read_u16-Moved p2.1 p3.0 e3) in
    let at : IsIn message p3.1.pos p3.1 = record {
      same = i3.same;
      behind = omega arith;
      inside = i3.inside;
    } in
    let i4 = Moved-IsIn message p3.1.pos 4 p3.1 at (read_u32-Moved p3.1 p4.0 e4) in
    let i5 = Moved-IsIn message (p3.1.pos + 4) 2 p4.1 i4 (read_u16-Moved p4.1 p5.0 e5) in
    let i6 =
      Moved-IsIn message (p3.1.pos + 4 + 2) p5.0 p5.1 i5 (read_slice-Moved p5.1 p5.0 p6.0 e6) in
    subst (λ (x : Field × Reader). HasField message r x.0 x.1) (ok-injective k6)
      (record {
        from = omega (arith, i3.behind);
        next = record { same = i6.same; behind = omega (arith, i6.behind); inside = i6.inside };
        value = read_u32-ttl_at message p3.1 p4.0 i3.same e4;
      })

tally-IsScan :
    (message : Bytes) (r : Reader) (f : Field) (s : TtlScan) {r' : Reader}
    → 12 ≤ r.pos
    → HasField message r f r'
    → IsScan message r.pos s
    → IsScan message r'.pos (tally f s)
unfolding tally
tally-IsScan message r f s {r'} h v i = elim (Bool-cases (f.rr_type == 41)) [
  | inl opt ↦ rw opt (record {
    apart = i.apart;
    before =
        Before-later r.pos r'.pos s.ttl_offsets (omega (arith, v.from, v.next.behind)) i.before;
    is_min = i.is_min;
  })
  | inr real ↦ rw real (record {
    apart =
        Apart-snoc 12 s.ttl_offsets f.ttl_offset i.apart
          (Before-later r.pos f.ttl_offset s.ttl_offsets (omega (arith, v.from)) i.before)
          (omega (arith, v.from));
    before =
        Before-snoc r'.pos s.ttl_offsets f.ttl_offset
          (Before-later r.pos r'.pos s.ttl_offsets (omega (arith, v.from, v.next.behind)) i.before)
          v.next.behind;
    is_min =
        rw
          (
            map_snoc (ttl_at message) s.ttl_offsets f.ttl_offset,
            least_snoc (map (ttl_at message) s.ttl_offsets) (ttl_at message f.ttl_offset),
            i.is_min,
            v.value,
          )
          refl;
  })
]

scan_records-IsScan :
    (message : Bytes) (n : ℕ) (r : Reader) (s : TtlScan) {t : TtlScan}
    → IsIn message 12 r
    → IsScan message r.pos s
    → scan_records n r s ≡ ok t
    → IsScan message (length message) t
unfolding scan_records
scan_records-IsScan message zero r s v i h =
    subst (IsScan message (length message)) (ok-injective h) (record {
      apart = i.apart;
      before = Before-later r.pos (length message) s.ttl_offsets v.inside i.before;
      is_min = i.is_min;
    })
scan_records-IsScan message (suc n) r s v i h =
    let (p, e, k) = >>=-eq-ok (read_record r) _ h in
    let at : IsIn message r.pos r = record {
      same = v.same;
      behind = omega arith;
      inside = v.inside;
    } in
    let f = read_record-HasField message r p.0 at e in
    scan_records-IsScan message n p.1 (tally p.0 s)
      (record {
        same = f.next.same;
        behind = omega (arith, f.next.behind, f.from, v.behind);
        inside = f.next.inside;
      })
      (tally-IsScan message r p.0 s v.behind f i) k

skip_questions-IsIn :
    (message : Bytes) (n : ℕ) (r : Reader) {r' : Reader}
    → IsIn message 12 r
    → skip_questions n r ≡ ok r'
    → IsIn message 12 r'
unfolding skip_questions
skip_questions-IsIn message zero r v h = subst (IsIn message 12) (ok-injective h) v
skip_questions-IsIn message (suc n) r v h =
    let (r1, e1, k1) = >>=-eq-ok (skip_rr r) _ h in
    let (p2, e2, k2) = >>=-eq-ok (read_u16 r1) _ k1 in
    let (p3, e3, k3) = >>=-eq-ok (read_u16 p2.1) _ k2 in
    let i1 = skip_rr-IsIn message 12 r v e1 in
    let i2 = Moved-IsIn message 13 2 r1 i1 (read_u16-Moved r1 p2.0 e2) in
    let i3 = Moved-IsIn message 15 2 p2.1 i2 (read_u16-Moved p2.1 p3.0 e3) in
    skip_questions-IsIn message n p3.1
      (record { same = i3.same; behind = omega (arith, i3.behind); inside = i3.inside }) k3

pub scan-length : (message : Bytes) {s : TtlScan} → scan message ≡ ok s → 12 ≤ length message
unfolding scan
scan-length message h = elim (header_cases message) [
  | inl (short, e) ↦ absurd (cc (rw e at h))
  | inr (enough, e) ↦ enough
]

-- A scan that succeeds gives offsets behind the header, in order, of fields of four octets that do
-- not overlap and end inside the message; its minimum is the least number that stands in them, and
-- none where there is no field.
pub scan-IsScan :
    (message : Bytes) {s : TtlScan} → scan message ≡ ok s → IsScan message (length message) s
unfolding scan
scan-IsScan message h =
    let (p, e, k) = >>=-eq-ok (Header.read (new message)) _ h in
    let (r, e2, k2) = >>=-eq-ok (skip_questions p.0.qdcount p.1) _ k in
    let v = skip_questions-IsIn message p.0.qdcount p.1 (read-IsIn e) e2 in
    scan_records-IsScan message _ r no_records v (record { apart = tt; before = tt; is_min = refl })
      k2
  where
    read-IsIn : {q : Header × Reader} → Header.read (new message) ≡ ok q → IsIn message 12 q.1
    read-IsIn {q} e = elim (header_cases message) [
      | inl (short, e') ↦ absurd (cc (sym e ∙ e'))
      | inr (enough, e') ↦
          subst (λ (x : Header × Reader). IsIn message 12 x.1) (ok-injective (sym e' ∙ e))
            (record { same = refl; behind = omega arith; inside = omega (arith, enough) })
    ]
