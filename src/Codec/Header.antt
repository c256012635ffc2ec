-- ===== src/Codec/Header.antt =====
-- src/codec/header.rs: the 12-byte message header. The flags word is a number below 2 ^ 16; `!m`
-- of a mask `m` is `0xffff - m`.

pub mod Laws
pub mod Wire
use sagittarius.Prelude.{
  ℕ, zero, ◌-◌, ◌*◌, ◌/◌, ◌^◌, bit_and, bit_or, Bool, not, ltb, ◌==◌, if◌then◌else◌,
}
use sagittarius.Codec.Error.{Error, message_too_short, Result, ok, err, ◌>>=◌}
use sagittarius.Codec.Reader.{Reader, remaining, read_u16}
use sagittarius.Codec.Writer.{Writer, write_u16}

pub data Opcode : Type 0 where
  query iquery status notify update : Opcode
  other : ℕ → Opcode

-- The five named values, and the rest.
unfoldable pub opcode_of : ℕ → Opcode
opcode_of n =
    if n == 0
    then query
    else if n == 1
    then iquery
    else if n == 2
    then status
    else if n == 4
    then notify
    else if n == 5
    then update
    else Opcode.other n

-- `Opcode::from(u8)` and `u8::from(Opcode)`
unfoldable pub opcode_from_u8 : ℕ → Opcode
unfolding opcode_of
opcode_from_u8 v = opcode_of (bit_and v 0x0f)

unfoldable pub opcode_to_u8 : Opcode → ℕ
opcode_to_u8 query = 0
opcode_to_u8 iquery = 1
opcode_to_u8 status = 2
opcode_to_u8 notify = 4
opcode_to_u8 update = 5
opcode_to_u8 (Opcode.other n) = bit_and n 0x0f

pub data Rcode : Type 0 where
  no_error form_err serv_fail nx_domain not_impl refused : Rcode
  other : ℕ → Rcode

unfoldable pub rcode_of : ℕ → Rcode
rcode_of n =
    if n == 0
    then no_error
    else if n == 1
    then form_err
    else if n == 2
    then serv_fail
    else if n == 3
    then nx_domain
    else if n == 4
    then not_impl
    else if n == 5
    then refused
    else Rcode.other n

-- `Rcode::from(u8)` and `u8::from(Rcode)`
unfoldable pub rcode_from_u8 : ℕ → Rcode
unfolding rcode_of
rcode_from_u8 v = rcode_of (bit_and v 0x0f)

unfoldable pub rcode_to_u8 : Rcode → ℕ
rcode_to_u8 no_error = 0
rcode_to_u8 form_err = 1
rcode_to_u8 serv_fail = 2
rcode_to_u8 nx_domain = 3
rcode_to_u8 not_impl = 4
rcode_to_u8 refused = 5
rcode_to_u8 (Rcode.other n) = bit_and n 0x0f

pub record Header : Type 0 where
  pub id : ℕ
  pub flags : ℕ
  pub qdcount : ℕ
  pub ancount : ℕ
  pub nscount : ℕ
  pub arcount : ℕ

abbrev pub flag_qr : ℕ
flag_qr = 0x8000

abbrev pub flag_opcode : ℕ
flag_opcode = 0x7800

abbrev pub flag_aa : ℕ
flag_aa = 0x0400

abbrev pub flag_tc : ℕ
flag_tc = 0x0200

abbrev pub flag_rd : ℕ
flag_rd = 0x0100

abbrev pub flag_ra : ℕ
flag_ra = 0x0080

abbrev pub flag_z : ℕ
flag_z = 0x0070

abbrev pub flag_rcode : ℕ
flag_rcode = 0x000f

abbrev pub new : ℕ → Header
new id = record { id = id; flags = 0; qdcount = 0; ancount = 0; nscount = 0; arcount = 0 }

-- `self.flags & mask != 0`
unfoldable pub has_flag : ℕ → Header → Bool
has_flag mask h = not (bit_and h.flags mask == 0)

abbrev pub qr : Header → Bool
qr = has_flag flag_qr

abbrev pub aa : Header → Bool
aa = has_flag flag_aa

abbrev pub tc : Header → Bool
tc = has_flag flag_tc

abbrev pub rd : Header → Bool
rd = has_flag flag_rd

abbrev pub ra : Header → Bool
ra = has_flag flag_ra

unfoldable pub opcode : Header → Opcode
opcode h = opcode_from_u8 (bit_and h.flags flag_opcode / 2 ^ 11)

unfoldable pub z : Header → ℕ
z h = bit_and h.flags flag_z / 2 ^ 4

unfoldable pub rcode : Header → Rcode
rcode h = rcode_from_u8 (bit_and h.flags flag_rcode)

-- The body of every one-bit setter.
unfoldable pub set_flag : ℕ → Bool → Header → Header
set_flag mask v h = record h {
  flags = if v then bit_or h.flags mask else bit_and h.flags (0xffff - mask);
}

abbrev pub with_qr : Bool → Header → Header
with_qr = set_flag flag_qr

abbrev pub with_aa : Bool → Header → Header
with_aa = set_flag flag_aa

abbrev pub with_tc : Bool → Header → Header
with_tc = set_flag flag_tc

abbrev pub with_rd : Bool → Header → Header
with_rd = set_flag flag_rd

abbrev pub with_ra : Bool → Header → Header
with_ra = set_flag flag_ra

unfoldable pub with_opcode : Opcode → Header → Header
with_opcode op h = record h {
  flags = bit_or (bit_and h.flags (0xffff - flag_opcode)) (opcode_to_u8 op * 2 ^ 11);
}

unfoldable pub with_z : ℕ → Header → Header
with_z v h = record h {
  flags = bit_or (bit_and h.flags (0xffff - flag_z)) (bit_and v 0x07 * 2 ^ 4);
}

unfoldable pub with_rcode : Rcode → Header → Header
with_rcode rc h = record h {
  flags = bit_or (bit_and h.flags (0xffff - flag_rcode)) (rcode_to_u8 rc);
}

-- `Header::read`
unfoldable pub read : Reader → Result Error (Header × Reader)
read r = if ltb (remaining r) 12 then err (message_too_short (remaining r)) else (do
  (id, r1) ← read_u16 r
  (flags, r2) ← read_u16 r1
  (qdcount, r3) ← read_u16 r2
  (ancount, r4) ← read_u16 r3
  (nscount, r5) ← read_u16 r4
  (arcount, r6) ← read_u16 r5
  ok (
    record {
      id = id;
      flags = flags;
      qdcount = qdcount;
      ancount = ancount;
      nscount = nscount;
      arcount = arcount;
    },
    r6,
  ))

-- `Header::write`
unfoldable pub write : Header → Writer → Writer
write h w =
    write_u16
      (write_u16 (write_u16 (write_u16 (write_u16 (write_u16 w h.id) h.flags) h.qdcount) h.ancount)
        h.nscount)
      h.arcount
