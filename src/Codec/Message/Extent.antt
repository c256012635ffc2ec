-- ===== src/Codec/Message/Extent.antt =====
-- What `Query::parse` of src/codec/message.rs keeps of a datagram.
use sagittarius.Prelude.{
  ◌+◌, ◌-◌, ◌≤◌, ◌≡◌, sym, ap, inl, inr, arith, ltb, ◌==◌, Bool-cases, length, drop, length-take,
}
use sagittarius.Codec.Error.{Result, ok, err, out_of_fuel, >>=-eq-ok, ok-injective, map_err}
use sagittarius.Codec.Reader
use sagittarius.Codec.Reader.{Bytes, Reader, advance, read_u16}
use sagittarius.Codec.Reader.Laws.{read_u16-Moved}
use sagittarius.Codec.Name
use sagittarius.Codec.Name.Accepts
use sagittarius.Codec.Header
use sagittarius.Codec.Header.{Header}
use sagittarius.Codec.Header.Wire.{header_cases, header_at}
use sagittarius.Codec.Message.{
  Question, Query, with_id, read_question, is_query, parse_body, parse, question_wire,
}

map_err-ok : {E F A : Type 0} (f : E → F) (m : Result E A) {a : A} → map_err f m ≡ ok a → m ≡ ok a
map_err-ok f (ok a) h = ap ok (ok-injective h)
map_err-ok f (err e) h = cc
map_err-ok f out_of_fuel h = cc

-- A question has at most 259 octets: 255 of its name, and four.
read_question_lem :
    (r : Reader) {q : Question} {r' : Reader} → read_question r ≡ ok (q, r') → r'.pos ≤ r.pos + 259
unfolding read_question
read_question_lem r h =
    let (p1, e1, k1) = >>=-eq-ok (Name.read_question r) _ h in
    let (p2, e2, k2) = >>=-eq-ok (read_u16 p1.1) _ k1 in
    let (p3, e3, k3) = >>=-eq-ok (read_u16 p2.1) _ k2 in
    let (raws, b, _) = Accepts.read_question-Between r e1 in
    omega (
      arith,
      ap (λ (s : Reader). s.pos) b.moved,
      b.fits,
      ap (λ (s : Reader). s.pos) (read_u16-Moved p1.1 p2.0 e2).0,
      ap (λ (s : Reader). s.pos) (read_u16-Moved p2.1 p3.0 e3).0,
      ap (λ (x : Question × Reader). x.1.pos) (ok-injective k3),
    )

pub record IsParsed (raw : Bytes) (q : Query) : Type 0 where
  pub same_raw : q.raw ≡ raw
  pub same_header : q.header ≡ header_at raw
  pub question_fits : q.question_end ≤ 271

parse_body-IsParsed :
    (raw : Bytes) {q : Query}
    → parse_body raw (header_at raw) (advance (Reader.new raw) 12) ≡ ok q
    → IsParsed raw q
unfolding parse_body
parse_body-IsParsed raw {q} h = elim (Bool-cases (Header.qr (header_at raw))) [
  | inl e ↦ cc (rw (e, parse_body) at h)
  | inr is_request ↦ elim (Bool-cases (is_query (Header.opcode (header_at raw)))) [
    | inr e ↦ cc (rw (is_request, e, parse_body) at h)
    | inl standard ↦ elim (Bool-cases ((header_at raw).qdcount == 1)) [
      | inr e ↦ cc (rw (is_request, standard, e, parse_body) at h)
      | inl one ↦
          let r = advance (Reader.new raw) 12 in
          let body = map_err (with_id (header_at raw).id) (read_question r) in
          let (p, e, k) = >>=-eq-ok body _ (rw (is_request, standard, one, parse_body) at h) in
          let extent = read_question_lem r (map_err-ok _ (read_question r) e) in
          let same = sym (ok-injective k) in
          record {
            same_raw = ap (λ (x : Query). x.raw) same;
            same_header = ap (λ (x : Query). x.header) same;
            question_fits = omega (arith, extent, ap (λ (x : Query). x.question_end) same);
          }
    ]
  ]
]

pub parse-IsParsed : (raw : Bytes) {q : Query} → parse raw ≡ ok q → IsParsed raw q
unfolding parse
parse-IsParsed raw h = elim (Bool-cases (ltb 65535 (length raw))) [
  | inl long ↦ cc (rw (long, parse) at h)
  | inr fits ↦ elim (header_cases raw) [
    | inl (short, e) ↦ cc (rw (fits, e, parse) at h)
    | inr (enough, e) ↦ parse_body-IsParsed raw (rw (fits, e, parse) at h)
  ]
]

-- The question as it stands in the datagram.
pub length-question_wire :
    (raw : Bytes) {q : Query} → parse raw ≡ ok q → length (question_wire q) ≤ 259
unfolding question_wire
length-question_wire raw {q} h =
    omega (
      arith,
      (parse-IsParsed raw h).question_fits,
      length-take (q.question_end - 12) (drop 12 q.raw),
    )
