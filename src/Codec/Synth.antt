-- ===== src/Codec/Synth.antt =====
-- src/codec/synth.rs: responses that the server makes itself. An address is the list of its octets.
pub mod Layout
pub mod Replies
use sagittarius.Prelude.{
  ℕ, zero, suc, ◌+◌, ◌%◌, Bool, true, false, Option, none, some, List, [], ◌∷◌, map, if◌then◌else◌,
  length,
}
use sagittarius.Codec.Reader.{Bytes}
use sagittarius.Codec.Writer
use sagittarius.Codec.Writer.{Writer, write_slice, write_u8, write_u16, write_u32}
use sagittarius.Codec.Name
use sagittarius.Codec.Name.{Name}
use sagittarius.Codec.Header
use sagittarius.Codec.Header.{
  Header, Rcode, no_error, form_err, not_impl, with_qr, with_aa, with_tc, with_rd, with_ra,
  with_rcode,
}
use sagittarius.Codec.Message.{Qtype, a, aaaa, ptr, Query, question_wire}
use sagittarius.Codec.Ttl.{opt_type}
use sagittarius.Codec.Edns.{EdnsInfo, edns_option_cookie}

abbrev pub server_udp_payload_size : ℕ
server_udp_payload_size = 1232

abbrev pub owner_ptr : Bytes
owner_ptr = 0xc0 ∷ 0x0c ∷ []

abbrev pub class_in : ℕ
class_in = 1

pub record AnswerRr : Type 0 where
  pub rtype : ℕ
  pub ttl : ℕ
  pub rdata : Bytes

pub record LocalRecord : Type 0 where
  pub rtype : ℕ
  pub rdata : Bytes

pub data BlockMode : Type 0 where
  nx_domain : BlockMode
  -- v4, v6
  address : Bytes → Bytes → BlockMode

abbrev zeros : ℕ → Bytes
zeros zero = []
zeros (suc n) = 0 ∷ zeros n

-- `BlockMode::null_ip`
abbrev pub null_ip : BlockMode
null_ip = address (zeros 4) (zeros 16)

-- `Response::write_answer_rr`
unfoldable pub write_answer_rr : Writer → AnswerRr → Writer
write_answer_rr w rr =
    let w1 = write_slice w owner_ptr in
    let w2 = write_u16 w1 rr.rtype in
    let w3 = write_u16 w2 class_in in
    let w4 = write_u32 w3 rr.ttl in
    let w5 = write_u16 w4 (length rr.rdata) in write_slice w5 rr.rdata

unfoldable pub write_answers : Writer → List AnswerRr → Writer
unfolding write_answer_rr
write_answers w [] = w
write_answers w (rr ∷ rrs) = write_answers (write_answer_rr w rr) rrs

-- `Response::write_opt`; a cookie of the scan has at most 40 octets, so the conversions to a u16
-- do not fail.
unfoldable pub write_opt : Writer → EdnsInfo → Writer
write_opt w edns =
    let w1 = write_u8 w 0 in
    let w2 = write_u16 w1 opt_type in
    let w3 = write_u16 w2 server_udp_payload_size in
    let w4 = write_u32 w3 0 in
    elim edns.cookie [
      | some cookie ↦
          let w5 = write_u16 w4 (4 + length cookie) in
          let w6 = write_u16 w5 edns_option_cookie in
          let w7 = write_u16 w6 (length cookie) in write_slice w7 cookie
      | none ↦ write_u16 w4 0
    ]

-- `if let Some(edns) = edns { write_opt }` and the number of such records.
unfoldable pub write_edns : Writer → Option EdnsInfo → Writer
unfolding write_opt
write_edns w none = w
write_edns w (some edns) = write_opt w edns

abbrev pub edns_count : Option EdnsInfo → ℕ
edns_count none = 0
edns_count (some edns) = 1

-- The header of `Response::build`.
unfoldable pub build_header : Query → Rcode → Bool → ℕ → ℕ → Header
build_header query rcode aa ancount arcount =
    let flagged = with_rcode rcode (
      with_ra true
        (with_rd (Header.rd query.header) (with_qr true (Header.new query.header.id)))) in
    let counted = record flagged { qdcount = 1; ancount = ancount; arcount = arcount } in
    if aa then with_aa true counted else counted

-- `Response::build`; `answers.len() as u16` wraps.
unfoldable pub build : Query → Rcode → Bool → List AnswerRr → Option EdnsInfo → Bytes
unfolding write_answers write_edns
build query rcode aa answers edns =
    let hdr = build_header query rcode aa (length answers % 65536) (edns_count edns) in
    let w1 = Header.write hdr Writer.new in
    let w2 = write_slice w1 (question_wire query) in
    (write_edns (write_answers w2 answers) edns).buf

-- `Response::build_authoritative`
abbrev pub build_authoritative : Query → Rcode → List AnswerRr → Option EdnsInfo → Bytes
build_authoritative query rcode answers edns = build query rcode true answers edns

-- The header of `Response::build_tc`.
unfoldable pub tc_header : Query → ℕ → Header
tc_header query arcount =
    let flagged = with_rcode no_error (
      with_ra true (
        with_rd (Header.rd query.header)
          (with_tc true (with_qr true (Header.new query.header.id))))) in
    record flagged { qdcount = 1; arcount = arcount }

-- `Response::build_tc`
unfoldable pub build_tc : Query → Option EdnsInfo → Bytes
unfolding write_edns
build_tc query edns =
    let w1 = Header.write (tc_header query (edns_count edns)) Writer.new in
    let w2 = write_slice w1 (question_wire query) in (write_edns w2 edns).buf

abbrev pub truncated : Query → Option EdnsInfo → Bytes
truncated = build_tc

-- The arm of an address mode, on the type that was asked.
unfoldable pub block_address : Query → Bytes → Bytes → ℕ → Option EdnsInfo → Qtype → Bytes
block_address query v4 v6 ttl edns a =
    build query no_error false (record { rtype = 1; ttl = ttl; rdata = v4 } ∷ []) edns
block_address query v4 v6 ttl edns aaaa =
    build query no_error false (record { rtype = 28; ttl = ttl; rdata = v6 } ∷ []) edns
block_address query v4 v6 ttl edns _ = build query no_error false [] edns

-- `Response::block`
unfoldable pub block : Query → BlockMode → ℕ → Option EdnsInfo → Bytes
block query nx_domain ttl edns = build query Rcode.nx_domain false [] edns
block query (address v4 v6) ttl edns = block_address query v4 v6 ttl edns query.question.qtype

abbrev pub to_answer : ℕ → LocalRecord → AnswerRr
to_answer ttl r = record { rtype = r.rtype; ttl = ttl; rdata = r.rdata }

-- `Response::local`
unfoldable pub local : Query → List LocalRecord → ℕ → Option EdnsInfo → Bytes
local query records ttl edns = build_authoritative query no_error (map (to_answer ttl) records) edns

unfoldable pub local_nodata : Query → Option EdnsInfo → Bytes
local_nodata query edns = build_authoritative query no_error [] edns

unfoldable pub local_ptr : Query → Name → ℕ → Option EdnsInfo → Bytes
local_ptr query target ttl edns =
    let rdata = (Name.write target Writer.new).buf in
    build_authoritative query no_error (record { rtype = 12; ttl = ttl; rdata = rdata } ∷ []) edns

unfoldable pub error_response : Query → Rcode → Option EdnsInfo → Bytes
error_response query rcode edns = build query rcode false [] edns

-- `Response::formerr` and `Response::notimp`
unfoldable pub formerr : ℕ → Bytes
formerr id = (Header.write (with_rcode form_err (with_qr true (Header.new id))) Writer.new).buf

unfoldable pub notimp : ℕ → Bytes
notimp id = (Header.write (with_rcode not_impl (with_qr true (Header.new id))) Writer.new).buf
