-- ===== src/Codec/Message.antt =====
-- src/codec/message.rs: the shallow parse of a query, which reads the header and the one question.
pub mod Total
pub mod RoundTrip
pub mod Extent
pub mod Reject
use sagittarius.Prelude.{
  ℕ, ◌-◌, Bool, true, false, not, Option, none, some, ltb, ◌==◌, if◌then◌else◌, length, take, drop,
}
use sagittarius.Codec.Error.{
  Error, not_a_request, unsupported_opcode, invalid_question_count, message_too_long, Result, ok,
  err, ◌>>=◌, map_err,
}
use sagittarius.Codec.Reader.{Bytes, Reader, read_u16}
use sagittarius.Codec.Reader
use sagittarius.Codec.Writer.{Writer, write_u16}
use sagittarius.Codec.Name
use sagittarius.Codec.Name.{Name}
use sagittarius.Codec.Header
use sagittarius.Codec.Header.{Header, Opcode, query}

abbrev pub max_message_len : ℕ
max_message_len = 65535

pub data Qtype : Type 0 where
  a aaaa ptr : Qtype
  other : ℕ → Qtype

-- `Qtype::from(u16)` and `u16::from(Qtype)`
unfoldable pub qtype_from_u16 : ℕ → Qtype
qtype_from_u16 v =
    if v == 1 then a else if v == 28 then aaaa else if v == 12 then ptr else Qtype.other v

unfoldable pub qtype_to_u16 : Qtype → ℕ
qtype_to_u16 a = 1
qtype_to_u16 aaaa = 28
qtype_to_u16 ptr = 12
qtype_to_u16 (Qtype.other v) = v

pub data Qclass : Type 0 where
  internet : Qclass
  other : ℕ → Qclass

-- `Qclass::from(u16)` and `u16::from(Qclass)`; `internet` is `In`.
unfoldable pub qclass_from_u16 : ℕ → Qclass
qclass_from_u16 v = if v == 1 then internet else Qclass.other v

unfoldable pub qclass_to_u16 : Qclass → ℕ
qclass_to_u16 internet = 1
qclass_to_u16 (Qclass.other v) = v

pub record Question : Type 0 where
  pub name : Name
  pub qtype : Qtype
  pub qclass : Qclass

-- `Question::read`
unfoldable pub read_question : Reader → Result Error (Question × Reader)
read_question r = do
  (name, r1) ← Name.read_question r
  (qtype, r2) ← read_u16 r1
  (qclass, r3) ← read_u16 r2
  ok (record { name = name; qtype = qtype_from_u16 qtype; qclass = qclass_from_u16 qclass }, r3)

-- `Question::write`
unfoldable pub write_question : Question → Writer → Writer
write_question q w =
    write_u16 (write_u16 (Name.write q.name w) (qtype_to_u16 q.qtype)) (qclass_to_u16 q.qclass)

pub record ParseError : Type 0 where
  pub id : Option ℕ
  pub kind : Error

abbrev pub without_id : Error → ParseError
without_id kind = record { id = none; kind = kind }

abbrev pub with_id : ℕ → Error → ParseError
with_id id kind = record { id = some id; kind = kind }

pub data RejectAction : Type 0 where
  drop_silently : RejectAction
  form_err : ℕ → RejectAction
  not_imp : ℕ → RejectAction

-- The arms on the error's kind, where the id is known.
abbrev reject_kind : ℕ → Error → RejectAction
reject_kind id not_a_request = drop_silently
reject_kind id (unsupported_opcode n) = not_imp id
reject_kind id kind = form_err id

-- `ParseError::reject_action`
unfoldable pub reject_action : ParseError → RejectAction
reject_action e = elim e.id [ none ↦ drop_silently | some id ↦ reject_kind id e.kind ]

pub record Query : Type 0 where
  pub raw : Bytes
  pub header : Header
  pub question : Question
  pub question_end : ℕ

-- `header.opcode() != Opcode::Query`
unfoldable pub is_query : Opcode → Bool
is_query query = true
is_query _ = false

-- `Query::parse` behind the header: message kind, question count, question.
unfoldable pub parse_body : Bytes → Header → Reader → Result ParseError Query
parse_body raw header r =
    if Header.qr header
    then err (with_id header.id not_a_request)
    else if not (is_query (Header.opcode header))
    then err (with_id header.id (unsupported_opcode (Header.opcode_to_u8 (Header.opcode header))))
    else if not (header.qdcount == 1)
    then err (with_id header.id (invalid_question_count header.qdcount))
    else (do
      (question, r') ← map_err (with_id header.id) (read_question r)
      ok (record { raw = raw; header = header; question = question; question_end = r'.pos }))

-- `Query::parse`
unfoldable pub parse : Bytes → Result ParseError Query
parse raw =
    if ltb max_message_len (length raw)
    then err (without_id (message_too_long (length raw)))
    else (do
      (header, r) ← map_err without_id (Header.read (Reader.new raw))
      parse_body raw header r)

-- `Query::question_wire`
unfoldable pub question_wire : Query → Bytes
question_wire q = take (q.question_end - 12) (drop 12 q.raw)
