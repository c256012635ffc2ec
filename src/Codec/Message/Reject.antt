-- ===== src/Codec/Message/Reject.antt =====
-- What the listener answers to a datagram that does not parse (`ParseError::reject_action` of
-- src/codec/message.rs), by the datagram itself.
use sagittarius.Prelude.{
  ℕ, zero, suc, ◌≤◌, ◌<◌, ◌≡◌, refl, ◌⊎◌, inl, inr, true, false, not, [], ◌∷◌, ltb, ◌==◌,
  if◌then◌else◌, ltb→lt, ltb→le, Bool-cases, Option-cases, length, get_elem?,
}
use sagittarius.Codec.Error.{
  Error, invalid_question_count, Result, ok, err, out_of_fuel, ◌>>=◌, map_err, Raises, raises,
  no_error, this_error, no_fuel, Raises-err, Raises-map,
}
use sagittarius.Codec.Reader
use sagittarius.Codec.Reader.{Bytes, Reader, read_u8, read_u16, read_slice, advance, remaining}
use sagittarius.Codec.Name
use sagittarius.Codec.Name.{
  validate_bytes, validate_label, read_label, read_octet, read_labels, question_fuel,
}
use sagittarius.Codec.Header
use sagittarius.Codec.Header.{Header}
use sagittarius.Codec.Header.Wire.{header_cases, header_at}
use sagittarius.Codec.Message.{
  Question, Query, ParseError, with_id, RejectAction, drop_silently, form_err, not_imp, reject_kind,
  reject_action, read_question, is_query, parse_body, parse,
}

-- An error that the listener answers with FORMERR.
abbrev IsMalformed : Error → Type 0
IsMalformed e = (id : ℕ) → reject_kind id e ≡ form_err id

read_u8-Raises : (r : Reader) → Raises IsMalformed (read_u8 r)
unfolding read_u8
read_u8-Raises r = elim (Option-cases (get_elem? r.buf r.pos)) [
  | inl e ↦ rw (e, read_u8) (this_error _ (λ id. refl))
  | inr (b, e) ↦ rw (e, read_u8) (no_error _)
]

read_u16-Raises : (r : Reader) → Raises IsMalformed (read_u16 r)
unfolding read_u16
read_u16-Raises r = elim (Option-cases (Reader.get_range r.buf r.pos 2)) [
  | inl e ↦ rw (e, read_u16) (this_error _ (λ id. refl))
  | inr (b, e) ↦ rw (e, read_u16) (no_error _)
]

read_slice-Raises : (r : Reader) (n : ℕ) → Raises IsMalformed (read_slice r n)
unfolding read_slice
read_slice-Raises r n = search raises

validate_bytes-Raises : (l : Bytes) → Raises IsMalformed (validate_bytes l)
unfolding validate_bytes
validate_bytes-Raises [] = no_error tt
validate_bytes-Raises (b ∷ bs) = search (raises, validate_bytes-Raises bs)

ruleset malformed =
    (raises, read_u8-Raises, read_u16-Raises, read_slice-Raises, validate_bytes-Raises)

validate_label-Raises : (l : Bytes) → Raises IsMalformed (validate_label l)
unfolding validate_label
validate_label-Raises l = search malformed

read_label-Raises : (r : Reader) (b wire_len : ℕ) → Raises IsMalformed (read_label r b wire_len)
unfolding read_label
read_label-Raises r b wire_len = search (malformed, validate_label-Raises)

read_labels-Raises :
    (fuel : ℕ) (r : Reader) (normalized : Bytes) (wire_len : ℕ)
    → Raises IsMalformed (read_labels fuel r normalized wire_len)
unfolding read_labels read_octet
read_labels-Raises zero r normalized wire_len = no_fuel
read_labels-Raises (suc fuel) r normalized wire_len =
    search (malformed, read_label-Raises, read_labels-Raises fuel)

read_name-Raises : (r : Reader) → Raises IsMalformed (Name.read_question r)
unfolding Name.read_question
read_name-Raises r = search (raises, read_labels-Raises)

read_question-Raises : (r : Reader) → Raises IsMalformed (read_question r)
unfolding read_question
read_question-Raises r = search (malformed, read_name-Raises)

-- The reply to a header that was read.
abbrev pub reply : Header → RejectAction
reply h =
    if Header.qr h
    then drop_silently
    else if is_query (Header.opcode h)
    then form_err h.id
    else not_imp h.id

abbrev IsReply : Header → ParseError → Type 0
IsReply h e = reject_action e ≡ reply h

map_question-Raises :
    (h : Header) (m : Result Error (Question × Reader))
    → Header.qr h ≡ false
    → is_query (Header.opcode h) ≡ true
    → Raises IsMalformed m
    → Raises (IsReply h) (map_err (with_id h.id) m)
unfolding reject_action
map_question-Raises h (ok a) n q r = no_error a
map_question-Raises h (err e) n q (this_error _ p) = this_error _ (rw (n, q) (p h.id))
map_question-Raises h out_of_fuel n q r = no_fuel

abbrev found : Bytes → Header → Question × Reader → Query
found raw h (q, r) = record { raw = raw; header = h; question = q; question_end = r.pos }

parse_body-Raises :
    (raw : Bytes) (h : Header) (r : Reader) → Raises (IsReply h) (parse_body raw h r)
unfolding parse_body reject_action
parse_body-Raises raw h r = elim (Bool-cases (Header.qr h)) [
  | inl response ↦ rw response (this_error _ (rw response refl))
  | inr request ↦ rw request (elim (Bool-cases (is_query (Header.opcode h))) [
    | inl q ↦
        let count : Raises {A = Query} (IsReply h)
            (err (with_id h.id (invalid_question_count h.qdcount))) =
          this_error _ (rw (request, q) refl) in
        let rest : Raises (IsReply h) (
            if not (h.qdcount == 1)
            then err (with_id h.id (invalid_question_count h.qdcount))
            else (map_err (with_id h.id) (read_question r) >>= λ x. ok (found raw h x))) =
          search (
            raises,
            count,
            map_question-Raises h (read_question r) request q (read_question-Raises r),
          ) in
        rw q rest
    | inr nq ↦ rw nq (this_error _ (rw (request, nq) refl))
  ])
]

-- No reply outside the size limits, and else the reply to the header that stands in the datagram.
abbrev pub Answered : Bytes → ParseError → Type 0
Answered raw e =
    (((65535 < length raw) ⊎ (length raw < 12)) × (reject_action e ≡ drop_silently))
    ⊎ ((12 ≤ length raw) × (length raw ≤ 65535) × (reject_action e ≡ reply (header_at raw)))

parse-Raises : (raw : Bytes) → Raises (Answered raw) (parse raw)
unfolding parse reject_action
parse-Raises raw = elim (Bool-cases (ltb 65535 (length raw))) [
  | inl long ↦ rw long (this_error _ (inl (inl (ltb→lt _ _ long), refl)))
  | inr fits ↦ rw fits (elim (header_cases raw) [
    | inl (short, e) ↦ rw e (this_error _ (inl (inr short, refl)))
    | inr (enough, e) ↦ rw e (
        Raises-map (λ x p. inr (enough, ltb→le _ _ fits, p))
          (parse_body-Raises raw (header_at raw) (advance (Reader.new raw) 12)))
  ])
]

-- A datagram that does not parse is dropped in silence if it is too long or too short for a header,
-- or if its header says response; else it is answered NOTIMP under its own id where the opcode is
-- no query, and FORMERR under its own id where it is one.
pub parse-reject_action : (raw : Bytes) {e : ParseError} → parse raw ≡ err e → Answered raw e
parse-reject_action raw h = Raises-err (rw h at (parse-Raises raw))
