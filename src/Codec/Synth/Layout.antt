-- ===== src/Codec/Synth/Layout.antt =====
-- The responses of src/codec/synth.rs, octet by octet.
use sagittarius.Prelude.{
  ℕ, suc, ◌+◌, ◌%◌, ◌<◌, ◌≡◌, sym, ap, ◌∙◌, inl, inr, Bool, true, false, Option, none, some, List,
  [], ◌∷◌, ◌++◌, append_assoc, append-nil, arith, if◌then◌else◌, Option-cases, length, drop,
}
use sagittarius.Codec.Error.{ok}
use sagittarius.Codec.Reader
use sagittarius.Codec.Reader.{Bytes, Reader, advance, be_u16}
use sagittarius.Codec.Reader.Laws.{rest-advance}
use sagittarius.Codec.Writer.{Writer, u16_bytes, u32_bytes}
use sagittarius.Codec.Header
use sagittarius.Codec.Header.{
  Header, Rcode, rcode_to_u8, no_error, form_err, not_impl, with_qr, with_aa, with_tc, with_rd,
  with_ra, with_rcode,
}
use sagittarius.Codec.Header.Laws.{
  Fields, fields, bit, fields-with_qr, fields-with_aa, fields-with_tc, fields-with_rd,
  fields-with_ra, fields-with_rcode,
}
use sagittarius.Codec.Header.Wire.{IsU16, header_bytes, read-header_bytes}
use sagittarius.Codec.Message.{Query, question_wire}
use sagittarius.Codec.Edns.{EdnsInfo}
use sagittarius.Codec.Synth.{
  AnswerRr, write_answer_rr, write_answers, write_opt, write_edns, edns_count, build_header,
  tc_header,
}

-- A record on the wire (RFC 1035 §4.1.3): a pointer to octet 12, type, class IN, TTL, data.
abbrev pub answer_bytes : AnswerRr → Bytes
answer_bytes rr =
    0xc0
    ∷ 0x0c
    ∷ (u16_bytes rr.rtype
        ++ (u16_bytes 1 ++ (u32_bytes rr.ttl ++ (u16_bytes (length rr.rdata) ++ rr.rdata))))

abbrev pub answers_bytes : List AnswerRr → Bytes
answers_bytes [] = []
answers_bytes (rr ∷ rrs) = answer_bytes rr ++ answers_bytes rrs

-- The cookie option, if there is one.
abbrev pub option_bytes : Option Bytes → Bytes
option_bytes none = []
option_bytes (some c) = u16_bytes 10 ++ (u16_bytes (length c) ++ c)

-- The OPT record (RFC 6891 §6.1.1).
abbrev pub opt_bytes : Option EdnsInfo → Bytes
opt_bytes none = []
opt_bytes (some i) =
    0
    ∷ (u16_bytes 41
        ++ (u16_bytes 1232
            ++ (u32_bytes 0
                ++ (u16_bytes (length (option_bytes i.cookie)) ++ option_bytes i.cookie))))

write_answer_rr_bytes :
    (w : Writer) (rr : AnswerRr) → (write_answer_rr w rr).buf ≡ w.buf ++ answer_bytes rr
unfolding write_answer_rr
write_answer_rr_bytes w rr = simp append_assoc

pub write_answers_bytes :
    (w : Writer) (rrs : List AnswerRr) → (write_answers w rrs).buf ≡ w.buf ++ answers_bytes rrs
unfolding write_answers
write_answers_bytes w [] = sym (append-nil w.buf)
write_answers_bytes w (rr ∷ rrs) =
    write_answers_bytes (write_answer_rr w rr) rrs
    ∙ ap (λ (l : Bytes). l ++ answers_bytes rrs) (write_answer_rr_bytes w rr)
    ∙ append_assoc w.buf (answer_bytes rr) (answers_bytes rrs)

pub write_edns_bytes :
    (w : Writer) (e : Option EdnsInfo) → (write_edns w e).buf ≡ w.buf ++ opt_bytes e
unfolding write_edns write_opt
write_edns_bytes w none = sym (append-nil w.buf)
write_edns_bytes w (some i) = elim (Option-cases i.cookie) [
  | inl e ↦ rw (e, write_opt) (simp append_assoc)
  | inr (c, e) ↦
      let size : 4 + length c ≡ suc (suc (suc (suc (length c)))) = omega arith in
      rw (e, write_opt) (rw size (simp append_assoc))
]

-- What stands behind the header.
abbrev pub body : Query → List AnswerRr → Option EdnsInfo → Bytes
body q answers e = question_wire q ++ (answers_bytes answers ++ opt_bytes e)

-- A response to `q`: its header read back, and the octets behind it.
pub record IsResponse (q : Query) (f : Fields) (answers : List AnswerRr) (e : Option EdnsInfo)
    (response : Bytes) : Type 0 where
  pub h : Header
  pub is_header : Header.read (Reader.new response) ≡ ok (h, advance (Reader.new response) 12)
  pub same_id : h.id ≡ q.header.id
  pub flags : fields h ≡ f
  pub counts :
      (h.qdcount ≡ 1)
      × (h.ancount ≡ length answers % 65536)
      × (h.nscount ≡ 0)
      × (h.arcount ≡ edns_count e)
  pub behind : drop 12 response ≡ body q answers e
  pub fits : IsU16 h
  pub layout : response ≡ header_bytes h ++ body q answers e

module _ {q : Query} {f : Fields} {answers : List AnswerRr} {e : Option EdnsInfo} {response : Bytes}
    (r : IsResponse q f answers e response) where
  -- The first two octets.
  pub IsResponse-be_u16 : be_u16 response ≡ q.header.id
  IsResponse-be_u16 = ap be_u16 r.layout ∙ omega (arith, r.fits.id, r.same_id)

  pub IsResponse-length : length response ≡ 12 + length (body q answers e)
  IsResponse-length = omega (arith, ap length r.layout)

-- The flags of a response: QR and RA are set, RD is the client's.
abbrev pub reply_flags : Query → Rcode → Bool → Bool → Fields
reply_flags q rc aa tc = record {
  qr = 1;
  opcode = 0;
  aa = bit aa;
  tc = bit tc;
  rd = bit (Header.rd q.header);
  ra = 1;
  z = 0;
  rcode = rcode_to_u8 rc;
}

pub flags_fit : (h : Header) → (fields h).qr ≡ 1 → h.flags < 65536
flags_fit h e = omega (arith, e)

pub fields-build_header :
    (q : Query) (rc : Rcode) (aa : Bool) (an ar : ℕ)
    → fields (build_header q rc aa an ar) ≡ reply_flags q rc aa false
unfolding build_header
fields-build_header q rc aa an ar =
    let b = Header.rd q.header in
    let h0 = Header.new q.header.id in
    let h1 = with_qr true h0 in
    let e1 = fields-with_qr true h0 (omega arith) in
    let h2 = with_rd b h1 in
    let e2 : fields h2 ≡ record (fields h0) { qr = 1; rd = bit b } =
      fields-with_rd b h1 (flags_fit h1 (ap (λ (f : Fields). f.qr) e1))
      ∙ ap (λ (f : Fields). record f { rd = bit b }) e1 in
    let h3 = with_ra true h2 in
    let e3 : fields h3 ≡ record (fields h0) { qr = 1; rd = bit b; ra = 1 } =
      fields-with_ra true h2 (flags_fit h2 (ap (λ (f : Fields). f.qr) e2))
      ∙ ap (λ (f : Fields). record f { ra = 1 }) e2 in
    let h4 = with_rcode rc h3 in
    let e4 : fields h4 ≡ reply_flags q rc false false =
      fields-with_rcode rc h3 (flags_fit h3 (ap (λ (f : Fields). f.qr) e3))
      ∙ ap (λ (f : Fields). record f { rcode = rcode_to_u8 rc }) e3 in
    go aa (record h4 { qdcount = 1; ancount = an; arcount = ar }) e4
  where
    go :
        (aa : Bool) (h : Header)
        → fields h ≡ reply_flags q rc false false
        → fields (if aa then with_aa true h else h) ≡ reply_flags q rc aa false
    go true h e =
        fields-with_aa true h (flags_fit h (ap (λ (f : Fields). f.qr) e))
        ∙ ap (λ (f : Fields). record f { aa = 1 }) e
    go false h e = e

pub fields-tc_header :
    (q : Query) (ar : ℕ) → fields (tc_header q ar) ≡ reply_flags q no_error false true
unfolding tc_header
fields-tc_header q ar =
    let b = Header.rd q.header in
    let h0 = Header.new q.header.id in
    let h1 = with_qr true h0 in
    let e1 = fields-with_qr true h0 (omega arith) in
    let h2 = with_tc true h1 in
    let e2 : fields h2 ≡ record (fields h0) { qr = 1; tc = 1 } =
      fields-with_tc true h1 (flags_fit h1 (ap (λ (f : Fields). f.qr) e1))
      ∙ ap (λ (f : Fields). record f { tc = 1 }) e1 in
    let h3 = with_rd b h2 in
    let e3 : fields h3 ≡ record (fields h0) { qr = 1; tc = 1; rd = bit b } =
      fields-with_rd b h2 (flags_fit h2 (ap (λ (f : Fields). f.qr) e2))
      ∙ ap (λ (f : Fields). record f { rd = bit b }) e2 in
    let h4 = with_ra true h3 in
    let e4 : fields h4 ≡ record (fields h0) { qr = 1; tc = 1; rd = bit b; ra = 1 } =
      fields-with_ra true h3 (flags_fit h3 (ap (λ (f : Fields). f.qr) e3))
      ∙ ap (λ (f : Fields). record f { ra = 1 }) e3 in
    fields-with_rcode no_error h4 (flags_fit h4 (ap (λ (f : Fields). f.qr) e4))
    ∙ ap (λ (f : Fields). record f { rcode = rcode_to_u8 no_error }) e4

pub edns_count_fits : (e : Option EdnsInfo) → edns_count e < 65536
edns_count_fits none = omega arith
edns_count_fits (some i) = omega arith

-- A header and a body that were written one behind the other.
pub written :
    (q : Query) (f : Fields) (answers : List AnswerRr) (e : Option EdnsInfo) (h : Header)
    (response : Bytes)
    → IsU16 h
    → response ≡ header_bytes h ++ body q answers e
    → h.id ≡ q.header.id
    → fields h ≡ f
    → (h.qdcount ≡ 1)
      × (h.ancount ≡ length answers % 65536)
      × (h.nscount ≡ 0)
      × (h.arcount ≡ edns_count e)
    → IsResponse q f answers e response
written q f answers e h response u layout id flags counts = record {
  h = h;
  is_header = read-header_bytes h (Reader.new response) (body q answers e) u layout;
  same_id = id;
  flags = flags;
  counts = counts;
  behind = rest-advance (Reader.new response) (header_bytes h) (body q answers e) layout;
  fits = u;
  layout = layout;
}
