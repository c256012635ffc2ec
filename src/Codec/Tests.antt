-- ===== src/Codec/Tests.antt =====
-- Runs of the codec on concrete bytes.
pub mod Answers
pub mod Addresses
use sagittarius.Prelude.{◌%◌, ◌≤◌, ◌≡◌, refl, true, false, some, [], ◌∷◌, arith, length}
use sagittarius.Codec.Error.{
  Error, not_a_request, name_skip_limit_exceeded, Result, ok, err, Returns,
}
use sagittarius.Codec.Reader
use sagittarius.Codec.Reader.{Bytes, Reader, new, advance, read_slice}
use sagittarius.Codec.Writer
use sagittarius.Codec.Framing.{
  length_prefix_size, try_encode_length_prefix, decode_length_prefix, decode-encode,
}
use sagittarius.Codec.Name
use sagittarius.Codec.Name.{
  Name, from_str, parse_labels, parse_label, split_dot, strip_dot, validate_label, validate_bytes,
  is_root_text, to_ascii_lowercase, is_ascii_alphanumeric, first_is, last_is,
}
use sagittarius.Codec.Name.Ends
use sagittarius.Codec.Name.Valid.{IsValid, text}
use sagittarius.Codec.Name.Accepts.{
  lower_label, Between, read_question-Between, read_question-IsValid,
}
use sagittarius.Codec.Ttl
use sagittarius.Codec.Ttl.{TtlScan, scan}
use sagittarius.Codec.Ttl.Ends.{scan-Returns}
use sagittarius.Codec.Ttl.Sound.{IsScan, scan-IsScan}
use sagittarius.Codec.Name.Skip
use sagittarius.Codec.Name.Skip.{
  skip_rr, skip_loop, skip_round, follow_pointer, skip_label, octet_at, sync_reader,
}
use sagittarius.Codec.Name.Skip.Ends.{skip_rr-Returns}
use sagittarius.Codec.Name.Skip.Bounds.{IsBehind, skip_rr-IsBehind}
use sagittarius.Codec.Name.Skip.Agree.{skip_rr-read_question}
use sagittarius.Codec.Name.Parse.{from_str-inner, from_str-IsValid}
use sagittarius.Codec.Name.RoundTrip.{cursor, read_question-write}
use sagittarius.Codec.Header
use sagittarius.Codec.Header.{Header, query}
use sagittarius.Codec.Header.Wire.{IsU16, header_bytes, read-header_bytes}
use sagittarius.Codec.Header.Laws.{fields, getters, setters}
use sagittarius.Codec.Message
use sagittarius.Codec.Message.Reject.{Answered, parse-reject_action}
use sagittarius.Codec.Message.Total.{parse-Returns}
use sagittarius.Codec.Message.{Question, a, internet, parse, ParseError, reject_action}
use sagittarius.Codec.Message.RoundTrip.{IsCanonical, message, parse-message}
use sagittarius.Codec.Message.{Query}
use sagittarius.Codec.Header.{Rcode, no_error, form_err, not_impl}
use sagittarius.Codec.Name.Valid.{wire}
use sagittarius.Codec.Edns
use sagittarius.Codec.Edns.{EdnsInfo}
use sagittarius.Codec.Edns.Cookie.{IsCookie, scan-IsCookie, scan_sections-Returns}
use sagittarius.Codec.Synth.{
  BlockMode, address, block, local, local_nodata, local_ptr, error_response, truncated, formerr,
  notimp,
}
use sagittarius.Codec.Synth.Layout.{IsResponse, reply_flags}
use sagittarius.Codec.Synth.Replies.{block-IsResponse, replies, IsBare, bare_flags}

abbrev text_a_b : Bytes
text_a_b = b'A' ∷ b'.' ∷ b'b' ∷ []

abbrev pub name_a_b : Name
name_a_b = record { inner = b'a' ∷ b'.' ∷ b'b' ∷ b'.' ∷ [] }

from_a_b : from_str text_a_b ≡ ok name_a_b
unfolding from_str parse_labels parse_label split_dot strip_dot validate_label is_root_text
    to_ascii_lowercase
from_a_b = refl

pub a_b-IsValid : IsValid name_a_b
a_b-IsValid = from_str-IsValid text_a_b from_a_b

from_str-IsValid_example : IsValid name_a_b
from_str-IsValid_example = from_str-IsValid text_a_b from_a_b

from_str-inner_example : from_str name_a_b.inner ≡ ok name_a_b
from_str-inner_example = from_str-inner name_a_b a_b-IsValid

read_question-write_example :
    Name.read_question (cursor (Name.write name_a_b Writer.new) [] 0)
    ≡ ok (
      name_a_b,
      cursor (Name.write name_a_b Writer.new) [] (length (Name.write name_a_b Writer.new).buf),
    )
read_question-write_example = read_question-write name_a_b Writer.new [] a_b-IsValid

-- A query for `a.b`, type A, with the RD flag.
abbrev pub request : Header
request = record { id = 0xbeef; flags = 0x0100; qdcount = 1; ancount = 0; nscount = 0; arcount = 0 }

abbrev pub asked : Question
asked = record { name = name_a_b; qtype = a; qclass = internet }

request-IsU16 : IsU16 request
request-IsU16 = record {
  id = omega arith;
  flags = omega arith;
  qdcount = omega arith;
  ancount = omega arith;
  nscount = omega arith;
  arcount = omega arith;
}

asked-IsCanonical : IsCanonical asked
unfolding Message.qtype_from_u16 Message.qtype_to_u16 Message.qclass_from_u16 Message.qclass_to_u16
asked-IsCanonical = record {
  name = a_b-IsValid;
  qtype = refl;
  qtype_fits = omega arith;
  qclass = refl;
  qclass_fits = omega arith;
}

request_qr : Header.qr request ≡ false
unfolding Header.has_flag
request_qr = refl

request_opcode : Header.opcode request ≡ query
unfolding Header.opcode Header.opcode_from_u8
request_opcode = refl

message_fits : length (message request asked []) ≤ 65535
unfolding Header.write Message.write_question Name.write
message_fits = omega arith

parse-message_example :
    parse (message request asked [])
    ≡ ok (record {
      raw = message request asked [];
      header = request;
      question = asked;
      question_end = length (Message.write_question asked (Header.write request Writer.new)).buf;
    })
parse-message_example =
    parse-message request asked [] request-IsU16 request_qr request_opcode refl asked-IsCanonical
      message_fits

-- A response of a header alone.
abbrev response_bytes : Bytes
response_bytes = 0xbe ∷ 0xef ∷ 0x80 ∷ 0 ∷ 0 ∷ 1 ∷ 0 ∷ 0 ∷ 0 ∷ 0 ∷ 0 ∷ 0 ∷ []

response_refused : parse response_bytes ≡ err (record { id = some 0xbeef; kind = not_a_request })
unfolding parse Message.parse_body Header.read Header.has_flag Reader.read_u16 Reader.get_range
response_refused = refl

parse-reject_action_example :
    Answered response_bytes (record { id = some 0xbeef; kind = not_a_request })
parse-reject_action_example = parse-reject_action response_bytes response_refused

parse-Returns_example : Returns (parse response_bytes)
parse-Returns_example = parse-Returns response_bytes

-- A label that a pointer to itself follows: the skip goes round until a limit stops it.
abbrev cycle : Reader
cycle = record { buf = 1 ∷ b'a' ∷ 0xc0 ∷ 0 ∷ []; pos = 0 }

cycle_stops : skip_rr cycle ≡ err name_skip_limit_exceeded
unfolding skip_rr skip_loop skip_round follow_pointer skip_label octet_at sync_reader read_slice
cycle_stops = refl

skip_rr-Returns_example : Returns (skip_rr cycle)
skip_rr-Returns_example = skip_rr-Returns cycle

read_question-Returns_example : Returns (Name.read_question cycle)
read_question-Returns_example = Ends.read_question-Returns cycle

-- `a.b` on the wire with a pointer to it behind.
abbrev two_names : Bytes
two_names = 1 ∷ b'a' ∷ 1 ∷ b'b' ∷ 0 ∷ 0xc0 ∷ 0 ∷ []

abbrev first_name : Reader
first_name = record { buf = two_names; pos = 0 }

abbrev second_name : Reader
second_name = record { buf = two_names; pos = 5 }

read_first : Name.read_question first_name ≡ ok (name_a_b, second_name)
unfolding Name.read_question Name.read_labels Name.read_label validate_label Reader.read_u8
    read_slice to_ascii_lowercase Name.from_normalized
read_first = refl

skip_rr-read_question_example : skip_rr first_name ≡ ok second_name
skip_rr-read_question_example = skip_rr-read_question first_name read_first

read_question-IsValid_example : IsValid name_a_b
read_question-IsValid_example = read_question-IsValid first_name read_first

skip_rr-IsBehind_example : IsBehind two_names 0 second_name
skip_rr-IsBehind_example =
    skip_rr-IsBehind first_name (omega arith) (skip_rr-read_question first_name read_first)

setters_example :
    (fields (Header.with_qr true request) ≡ record (fields request) { qr = 1 })
    × (fields (Header.with_opcode query request)
        ≡ record (fields request) { opcode = Header.opcode_to_u8 query })
    × (fields (Header.with_aa true request) ≡ record (fields request) { aa = 1 })
    × (fields (Header.with_tc true request) ≡ record (fields request) { tc = 1 })
    × (fields (Header.with_rd true request) ≡ record (fields request) { rd = 1 })
    × (fields (Header.with_ra true request) ≡ record (fields request) { ra = 1 })
    × (fields (Header.with_z 5 request) ≡ record (fields request) { z = 5 % 8 })
    × (fields (Header.with_rcode Header.nx_domain request)
        ≡ record (fields request) { rcode = Header.rcode_to_u8 Header.nx_domain })
setters_example = setters true 5 query Header.nx_domain request (omega arith)
