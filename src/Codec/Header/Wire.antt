-- ===== src/Codec/Header/Wire.antt =====
-- `Header::read` takes back what `Header::write` wrote (src/codec/header.rs).
use sagittarius.Prelude.{
  ℕ, ◌-◌, ◌≤◌, ◌<◌, ◌≡◌, refl, ap, ◌⊎◌, inl, inr, false, ◌++◌, append_assoc, arith, ltb, le→ltb,
  Bool-cases, length, take, drop, length-drop,
}
use sagittarius.Codec.Error.{message_too_short, ok, err, Returns, returns}
use sagittarius.Codec.Reader.{Bytes, Reader, new, be_u16, advance, remaining}
use sagittarius.Codec.Reader.Laws.{
  rest, rest-advance, read_u16_front, read_u16_fits, read_u16-Returns,
}
use sagittarius.Codec.Writer.{Writer, u16_bytes}
use sagittarius.Codec.Header.{Header, read, write}

pub record IsU16 (h : Header) : Type 0 where
  pub id : h.id < 65536
  pub flags : h.flags < 65536
  pub qdcount : h.qdcount < 65536
  pub ancount : h.ancount < 65536
  pub nscount : h.nscount < 65536
  pub arcount : h.arcount < 65536

-- The twelve octets of a header.
abbrev pub header_bytes : Header → Bytes
header_bytes h =
    u16_bytes h.id
    ++ (u16_bytes h.flags
        ++ (u16_bytes h.qdcount
            ++ (u16_bytes h.ancount ++ (u16_bytes h.nscount ++ u16_bytes h.arcount))))

pub write-header_bytes : (h : Header) (w : Writer) → (write h w).buf ≡ w.buf ++ header_bytes h
unfolding write
write-header_bytes h w = simp append_assoc

step : (r : Reader) (v : ℕ) (xs : Bytes) → rest r ≡ u16_bytes v ++ xs → rest (advance r 2) ≡ xs
step r v xs h = rest-advance r (u16_bytes v) xs h

-- The twelve octets are read back, whatever follows them.
pub read-header_bytes :
    (h : Header) (r : Reader) (xs : Bytes)
    → IsU16 h
    → rest r ≡ header_bytes h ++ xs
    → read r ≡ ok (h, advance r 12)
unfolding read
read-header_bytes h r xs v e =
    let r1 = advance r 2 in
    let r2 = advance r1 2 in
    let r3 = advance r2 2 in
    let r4 = advance r3 2 in
    let r5 = advance r4 2 in
    let e1 = step r h.id _ e in
    let e2 = step r1 h.flags _ e1 in
    let e3 = step r2 h.qdcount _ e2 in
    let e4 = step r3 h.ancount _ e3 in
    let e5 = step r4 h.nscount _ e4 in
    rw
      (
        enough,
        read_u16_front r h.id _ v.id e,
        read_u16_front r1 h.flags _ v.flags e1,
        read_u16_front r2 h.qdcount _ v.qdcount e2,
        read_u16_front r3 h.ancount _ v.ancount e3,
        read_u16_front r4 h.nscount _ v.nscount e4,
        read_u16_front r5 h.arcount xs v.arcount e5,
      )
      (ground arith)
  where
    enough : ltb (remaining r) 12 ≡ false
    enough = le→ltb _ _ (omega (arith, length-drop r.pos r.buf, ap length e))

pub read-Returns : (r : Reader) → Returns (read r)
unfolding read
read-Returns r = search (returns, read_u16-Returns) depth 20

abbrev pub word : Bytes → ℕ → ℕ
word raw offset = be_u16 (take 2 (drop offset raw))

-- The header that stands at the front of a datagram.
abbrev pub header_at : Bytes → Header
header_at raw = record {
  id = word raw 0;
  flags = word raw 2;
  qdcount = word raw 4;
  ancount = word raw 6;
  nscount = word raw 8;
  arcount = word raw 10;
}

-- Twelve octets are enough, and fewer are refused.
pub header_cases :
    (raw : Bytes)
    → ((length raw < 12) × (read (new raw) ≡ err (message_too_short (length raw - 0))))
      ⊎ ((12 ≤ length raw) × (read (new raw) ≡ ok (header_at raw, advance (new raw) 12)))
unfolding read
header_cases raw = elim (Bool-cases (ltb (length raw - 0) 12)) [
  | inl short ↦ inl (ground (arith, short), rw short refl)
  | inr long ↦
      let fits : 12 ≤ length raw = ground (arith, long) in
      inr (
        fits,
        rw
            (
              long,
              read_u16_fits (new raw) (omega arith),
              read_u16_fits (advance (new raw) 2) (omega arith),
              read_u16_fits (advance (new raw) 4) (omega arith),
              read_u16_fits (advance (new raw) 6) (omega arith),
              read_u16_fits (advance (new raw) 8) (omega arith),
              read_u16_fits (advance (new raw) 10) (omega arith),
            )
            refl,
      )
]
