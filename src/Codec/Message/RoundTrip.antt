-- ===== src/Codec/Message/RoundTrip.antt =====
-- `Query::parse` (src/codec/message.rs) takes back what the writers of the header and the question
-- wrote.
use sagittarius.Prelude.{
  ℕ, ◌+◌, ◌≤◌, ◌<◌, ◌≡◌, sym, ap, ◌∙◌, true, false, ◌++◌, append_assoc, arith, ◌==◌, le→ltb, length,
  length-append,
}
use sagittarius.Codec.Error.{ok}
use sagittarius.Codec.Reader
use sagittarius.Codec.Reader.{Bytes, Reader, advance, read_u16}
use sagittarius.Codec.Reader.Laws.{rest, rest-advance, read_u16_front}
use sagittarius.Codec.Writer.{Writer, u16_bytes}
use sagittarius.Codec.Writer
use sagittarius.Codec.Name.Valid.{IsValid, wire}
use sagittarius.Codec.Name.Write.{write-wire}
use sagittarius.Codec.Name.Question.{read_question-wire}
use sagittarius.Codec.Header
use sagittarius.Codec.Header.{Header, query}
use sagittarius.Codec.Header.Wire.{IsU16, header_bytes, write-header_bytes, read-header_bytes}
use sagittarius.Codec.Message.{
  Question, qtype_from_u16, qtype_to_u16, qclass_from_u16, qclass_to_u16, read_question,
  write_question, is_query, parse_body, parse,
}

-- A question as the parser makes them: a valid name, and numbers in their named form.
pub record IsCanonical (q : Question) : Type 0 where
  pub name : IsValid q.name
  pub qtype : qtype_from_u16 (qtype_to_u16 q.qtype) ≡ q.qtype
  pub qtype_fits : qtype_to_u16 q.qtype < 65536
  pub qclass : qclass_from_u16 (qclass_to_u16 q.qclass) ≡ q.qclass
  pub qclass_fits : qclass_to_u16 q.qclass < 65536

abbrev pub question_bytes : (q : Question) → IsCanonical q → Bytes
question_bytes q v =
    wire v.name.labels ++ (u16_bytes (qtype_to_u16 q.qtype) ++ u16_bytes (qclass_to_u16 q.qclass))

pub write-question_bytes :
    (q : Question) (v : IsCanonical q) (w : Writer)
    → (write_question q w).buf ≡ w.buf ++ question_bytes q v
unfolding write_question
write-question_bytes q v w = simp (write-wire q.name v.name w, append_assoc)

pub read-question_bytes :
    (q : Question) (v : IsCanonical q) (r : Reader) (xs : Bytes)
    → rest r ≡ question_bytes q v ++ xs
    → read_question r ≡ ok (q, advance r (length (question_bytes q v)))
unfolding read_question
read-question_bytes q v r xs h =
    let tail : Bytes =
      u16_bytes (qtype_to_u16 q.qtype) ++ (u16_bytes (qclass_to_u16 q.qclass) ++ xs) in
    let e : rest r ≡ wire v.name.labels ++ tail = h ∙ append_assoc (wire v.name.labels) _ xs in
    let r1 = advance r (length (wire v.name.labels)) in
    let e1 = rest-advance r (wire v.name.labels) tail e in
    let e2 = rest-advance r1 (u16_bytes (qtype_to_u16 q.qtype)) _ e1 in
    let size : r.pos + length (wire v.name.labels) + 2 + 2 ≡ r.pos + length (question_bytes q v) =
      omega (
        arith,
        length-append (wire v.name.labels)
            (u16_bytes (qtype_to_u16 q.qtype) ++ u16_bytes (qclass_to_u16 q.qclass)),
      ) in
    rw
      (
        read_question-wire q.name v.name r tail e,
        read_u16_front r1 (qtype_to_u16 q.qtype) _ v.qtype_fits e1,
        read_u16_front (advance r1 2) (qclass_to_u16 q.qclass) xs v.qclass_fits e2,
        v.qtype,
        v.qclass,
      )
      (ap (λ (n : ℕ). ok (q, record { buf = r.buf; pos = n })) size)

-- A query as a client writes it, with whatever records behind its question.
abbrev pub message : Header → Question → Bytes → Bytes
message h q extra = (write_question q (Header.write h Writer.new)).buf ++ extra

message_bytes :
    (h : Header) (q : Question) (v : IsCanonical q) (extra : Bytes)
    → message h q extra ≡ header_bytes h ++ (question_bytes q v ++ extra)
message_bytes h q v extra =
    rw (write-question_bytes q v, write-header_bytes h Writer.new)
      (append_assoc (header_bytes h) (question_bytes q v) extra)

end_of_question :
    (h : Header) (q : Question) (v : IsCanonical q)
    → length (write_question q (Header.write h Writer.new)).buf ≡ 12 + length (question_bytes q v)
end_of_question h q v = rw (write-question_bytes q v, write-header_bytes h Writer.new) (omega arith)

-- A request for one name is parsed back: the same header, the same question, and the offset where
-- the question ends.
pub parse-message :
    (h : Header) (q : Question) (extra : Bytes)
    → IsU16 h
    → Header.qr h ≡ false
    → Header.opcode h ≡ query
    → h.qdcount ≡ 1
    → IsCanonical q
    → length (message h q extra) ≤ 65535
    → parse (message h q extra)
      ≡ ok (record {
        raw = message h q extra;
        header = h;
        question = q;
        question_end = length (write_question q (Header.write h Writer.new)).buf;
      })
unfolding parse parse_body is_query
parse-message h q extra u not_response is_q one v fits =
    let raw = message h q extra in
    let r = Reader.new raw in
    let front = message_bytes h q v extra in
    let one_test : (h.qdcount == 1) ≡ true = ground (arith, one) in
    rw
      (
        le→ltb 65535 (length raw) fits,
        read-header_bytes h r (question_bytes q v ++ extra) u front,
        not_response,
        is_q,
        one_test,
        read-question_bytes q v (advance r 12) extra
            (rest-advance r (header_bytes h) (question_bytes q v ++ extra) front),
      )
      (ap (λ (n : ℕ). ok (record { raw = raw; header = h; question = q; question_end = n }))
        (sym (end_of_question h q v)))
