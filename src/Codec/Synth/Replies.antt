-- ===== src/Codec/Synth/Replies.antt =====
-- What each response of src/codec/synth.rs says.
use sagittarius.Prelude.{
  ℕ, ◌%◌, ◌<◌, ◌≡◌, refl, sym, ap, ◌∙◌, Bool, true, false, Option, List, [], ◌∷◌, ◌++◌, map,
  append_assoc, append-nil, arith, length,
}
use sagittarius.Codec.Error.{ok}
use sagittarius.Codec.Reader
use sagittarius.Codec.Reader.{Bytes, Reader, advance}
use sagittarius.Codec.Writer
use sagittarius.Codec.Writer.{Writer, write_slice}
use sagittarius.Codec.Name.{Name}
use sagittarius.Codec.Name.Valid.{IsValid, wire}
use sagittarius.Codec.Name.Write.{write-wire}
use sagittarius.Codec.Header
use sagittarius.Codec.Header.{
  Header, Rcode, rcode_to_u8, no_error, form_err, not_impl, with_qr, with_rcode, set_flag,
}
use sagittarius.Codec.Header.Laws.{Fields, fields, fields-with_qr, fields-with_rcode}
use sagittarius.Codec.Header.Wire.{IsU16, header_bytes, write-header_bytes, read-header_bytes}
use sagittarius.Codec.Message.{Qtype, aaaa, ptr, Query, question_wire}
use sagittarius.Codec.Edns.{EdnsInfo}
use sagittarius.Codec.Synth.{
  AnswerRr, LocalRecord, write_answers, edns_count, build_header, build, tc_header, build_tc,
  truncated, formerr, notimp, BlockMode, address, block_address, block, to_answer, local,
  local_nodata, local_ptr, error_response,
}
use sagittarius.Codec.Synth.Layout.{
  answers_bytes, opt_bytes, write_answers_bytes, write_edns_bytes, body, IsResponse, reply_flags,
  flags_fit, fields-build_header, fields-tc_header, edns_count_fits, written,
}

-- The numbers of the header that a response begins with.
record HasCounts (h : Header) (id an ar : ℕ) : Type 0 where
  pub same_id : h.id ≡ id
  pub counts : (h.qdcount ≡ 1) × (h.ancount ≡ an) × (h.nscount ≡ 0) × (h.arcount ≡ ar)

build_header_counts :
    (q : Query) (rc : Rcode) (aa : Bool) (an ar : ℕ)
    → HasCounts (build_header q rc aa an ar) q.header.id an ar
unfolding build_header set_flag with_rcode
build_header_counts q rc true an ar = record { same_id = refl; counts = (refl, refl, refl, refl) }
build_header_counts q rc false an ar = record { same_id = refl; counts = (refl, refl, refl, refl) }

tc_header_counts : (q : Query) (ar : ℕ) → HasCounts (tc_header q ar) q.header.id 0 ar
unfolding tc_header set_flag with_rcode
tc_header_counts q ar = record { same_id = refl; counts = (refl, refl, refl, refl) }

header_IsU16 :
    (h : Header) (id an ar : ℕ)
    → id < 65536
    → an < 65536
    → ar < 65536
    → HasCounts h id an ar
    → (fields h).qr ≡ 1
    → IsU16 h
header_IsU16 h id an ar hi ha hr c e = record {
  id = omega (arith, c.same_id, hi);
  flags = flags_fit h e;
  qdcount = omega (arith, c.counts.0);
  ancount = omega (arith, c.counts.1, ha);
  nscount = omega (arith, c.counts.2);
  arcount = omega (arith, c.counts.3, hr);
}

build_bytes :
    (q : Query) (rc : Rcode) (aa : Bool) (answers : List AnswerRr) (e : Option EdnsInfo)
    → build q rc aa answers e
      ≡ header_bytes (build_header q rc aa (length answers % 65536) (edns_count e))
        ++ body q answers e
unfolding build
build_bytes q rc aa answers e =
    let h = build_header q rc aa (length answers % 65536) (edns_count e) in
    let w2 = write_slice (Header.write h Writer.new) (question_wire q) in
    write_edns_bytes (write_answers w2 answers) e
    ∙ ap (λ (l : Bytes). l ++ opt_bytes e) (write_answers_bytes w2 answers)
    ∙ ap (λ (l : Bytes). ((l ++ question_wire q) ++ answers_bytes answers) ++ opt_bytes e)
        (write-header_bytes h Writer.new)
    ∙ simp append_assoc

pub build-IsResponse :
    (q : Query) (rc : Rcode) (aa : Bool) (answers : List AnswerRr) (e : Option EdnsInfo)
    → q.header.id < 65536
    → IsResponse q (reply_flags q rc aa false) answers e (build q rc aa answers e)
build-IsResponse q rc aa answers e hi =
    let an = length answers % 65536 in
    let h = build_header q rc aa an (edns_count e) in
    let c = build_header_counts q rc aa an (edns_count e) in
    let f = fields-build_header q rc aa an (edns_count e) in
    let u =
      header_IsU16 h q.header.id an (edns_count e) hi (omega arith) (edns_count_fits e) c
        (ap (λ (x : Fields). x.qr) f) in
    written q (reply_flags q rc aa false) answers e h (build q rc aa answers e) u
      (build_bytes q rc aa answers e) c.same_id f c.counts

pub build_tc-IsResponse :
    (q : Query) (e : Option EdnsInfo)
    → q.header.id < 65536
    → IsResponse q (reply_flags q no_error false true) [] e (build_tc q e)
unfolding build_tc
build_tc-IsResponse q e hi =
    let h = tc_header q (edns_count e) in
    let c = tc_header_counts q (edns_count e) in
    let f = fields-tc_header q (edns_count e) in
    let u =
      header_IsU16 h q.header.id 0 (edns_count e) hi (omega arith) (edns_count_fits e) c
        (ap (λ (x : Fields). x.qr) f) in
    let w2 = write_slice (Header.write h Writer.new) (question_wire q) in
    let layout : build_tc q e ≡ header_bytes h ++ body q [] e =
      write_edns_bytes w2 e
      ∙ ap (λ (l : Bytes). (l ++ question_wire q) ++ opt_bytes e) (write-header_bytes h Writer.new)
      ∙ simp append_assoc in
    written q (reply_flags q no_error false true) [] e h (build_tc q e) u layout c.same_id f
      (c.counts.0, c.counts.1, c.counts.2, c.counts.3)

-- How a blocked question is answered.
abbrev pub block_rcode : BlockMode → Rcode
block_rcode BlockMode.nx_domain = Rcode.nx_domain
block_rcode (address v4 v6) = no_error

abbrev pub block_answers : BlockMode → Qtype → ℕ → List AnswerRr
block_answers (address v4 v6) Qtype.a ttl = record { rtype = 1; ttl = ttl; rdata = v4 } ∷ []
block_answers (address v4 v6) aaaa ttl = record { rtype = 28; ttl = ttl; rdata = v6 } ∷ []
block_answers _ _ ttl = []

block_address-IsResponse :
    (q : Query) (v4 v6 : Bytes) (ttl : ℕ) (e : Option EdnsInfo)
    → q.header.id < 65536
    → (t : Qtype)
    → IsResponse q
        (reply_flags q no_error false false)
        (block_answers (address v4 v6) t ttl)
        e
        (block_address q v4 v6 ttl e t)
unfolding block_address
block_address-IsResponse q v4 v6 ttl e hi Qtype.a = build-IsResponse q no_error false _ e hi
block_address-IsResponse q v4 v6 ttl e hi aaaa = build-IsResponse q no_error false _ e hi
block_address-IsResponse q v4 v6 ttl e hi ptr = build-IsResponse q no_error false [] e hi
block_address-IsResponse q v4 v6 ttl e hi (Qtype.other n) =
    build-IsResponse q no_error false [] e hi

-- A blocked question is answered, under the client's id and with its question echoed, with NXDOMAIN
-- and no record in the one mode, and in the other with NOERROR and the sinkhole address of the
-- type that was asked, or no record for other types; an OPT record follows if the query had one.
pub block-IsResponse :
    (q : Query) (mode : BlockMode) (ttl : ℕ) (e : Option EdnsInfo)
    → q.header.id < 65536
    → IsResponse q
        (reply_flags q (block_rcode mode) false false)
        (block_answers mode q.question.qtype ttl)
        e
        (block q mode ttl e)
unfolding block
block-IsResponse q BlockMode.nx_domain ttl e hi = build-IsResponse q Rcode.nx_domain false [] e hi
block-IsResponse q (address v4 v6) ttl e hi =
    block_address-IsResponse q v4 v6 ttl e hi q.question.qtype

-- Local answers are authoritative and carry the given records, none, or the pointer to a valid name
-- in its wire form; an error response has the given code, a truncated one TC, and neither has a
-- record. All have the client's id, its question, and an OPT record if the query had one.
pub replies :
    (q : Query) (records : List LocalRecord) (target : Name) (v : IsValid target) (ttl : ℕ)
    (rc : Rcode) (e : Option EdnsInfo)
    → q.header.id < 65536
    → IsResponse q
        (reply_flags q no_error true false)
        (map (to_answer ttl) records)
        e
        (local q records ttl e)
      × IsResponse q (reply_flags q no_error true false) [] e (local_nodata q e)
      × IsResponse q
          (reply_flags q no_error true false)
          (record { rtype = 12; ttl = ttl; rdata = wire v.labels } ∷ [])
          e
          (local_ptr q target ttl e)
      × IsResponse q (reply_flags q rc false false) [] e (error_response q rc e)
      × IsResponse q (reply_flags q no_error false true) [] e (truncated q e)
unfolding local local_nodata local_ptr error_response
replies q records target v ttl rc e hi = (
  build-IsResponse q no_error true (map (to_answer ttl) records) e hi,
  build-IsResponse q no_error true [] e hi,
  rw (write-wire target v Writer.new) (build-IsResponse q no_error true _ e hi),
  build-IsResponse q rc false [] e hi,
  build_tc-IsResponse q e hi,
)

-- The flags of a reply without a question.
abbrev pub bare_flags : Rcode → Fields
bare_flags rc = record {
  qr = 1;
  opcode = 0;
  aa = 0;
  tc = 0;
  rd = 0;
  ra = 0;
  z = 0;
  rcode = rcode_to_u8 rc;
}

-- A header of twelve octets and nothing else.
pub record IsBare (id : ℕ) (f : Fields) (response : Bytes) : Type 0 where
  pub h : Header
  pub is_header : Header.read (Reader.new response) ≡ ok (h, advance (Reader.new response) 12)
  pub same_id : h.id ≡ id
  pub flags : fields h ≡ f
  pub counts : (h.qdcount ≡ 0) × (h.ancount ≡ 0) × (h.nscount ≡ 0) × (h.arcount ≡ 0)
  pub size : length response ≡ 12

header-IsBare :
    (rc : Rcode) (id : ℕ)
    → id < 65536
    → IsBare id
        (bare_flags rc)
        (Header.write (with_rcode rc (with_qr true (Header.new id))) Writer.new).buf
unfolding set_flag with_rcode
header-IsBare rc id hi =
    let h1 = with_qr true (Header.new id) in
    let h = with_rcode rc h1 in
    let e1 = fields-with_qr true (Header.new id) (omega arith) in
    let e : fields h ≡ bare_flags rc =
      fields-with_rcode rc h1 (flags_fit h1 (ap (λ (f : Fields). f.qr) e1))
      ∙ ap (λ (f : Fields). record f { rcode = rcode_to_u8 rc }) e1 in
    let u : IsU16 h = record {
      id = hi;
      flags = flags_fit h (ap (λ (f : Fields). f.qr) e);
      qdcount = omega arith;
      ancount = omega arith;
      nscount = omega arith;
      arcount = omega arith;
    } in
    let bytes = write-header_bytes h Writer.new in
    record {
      h = h;
      is_header =
          read-header_bytes h (Reader.new (Header.write h Writer.new).buf) [] u
            (bytes ∙ sym (append-nil (header_bytes h)));
      same_id = refl;
      flags = e;
      counts = (refl, refl, refl, refl);
      size = ap length bytes;
    }

-- The replies to a datagram that did not parse are a header with QR, the code, the id of the
-- datagram and no question.
formerr-notimp :
    (id : ℕ)
    → id < 65536
    → IsBare id (bare_flags form_err) (formerr id) × IsBare id (bare_flags not_impl) (notimp id)
unfolding formerr notimp
formerr-notimp id hi = (header-IsBare form_err id hi, header-IsBare not_impl id hi)
