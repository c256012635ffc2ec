-- ===== src/Codec/Header/Laws.antt =====
-- The flags word of src/codec/header.rs as eight fields: a getter reads one of them, and a setter
-- changes that one alone.
use sagittarius.Prelude.{
  ℕ, ◌+◌, ◌-◌, ◌*◌, ◌/◌, ◌%◌, ◌^◌, ◌<◌, bit_and, bit_or, ◌≡◌, ap, Bool, true, false, arith, ◌==◌,
}
use sagittarius.Prelude.Bits.{
  and_split, or_split, and_mask, and_field, or_gap, or_step, bit_or-zero,
}
use sagittarius.Codec.Header.{
  Opcode, Rcode, Header, opcode_of, opcode_from_u8, opcode_to_u8, rcode_of, rcode_from_u8,
  rcode_to_u8, flag_opcode, flag_rcode, has_flag, set_flag, qr, aa, tc, rd, ra, opcode, z, rcode,
  with_qr, with_aa, with_tc, with_rd, with_ra, with_opcode, with_z, with_rcode,
}

-- RFC 1035 §4.1.1, most significant first.
pub record Fields : Type 0 where
  pub qr : ℕ
  pub opcode : ℕ
  pub aa : ℕ
  pub tc : ℕ
  pub rd : ℕ
  pub ra : ℕ
  pub z : ℕ
  pub rcode : ℕ

abbrev pub fields : Header → Fields
fields h = record {
  qr = h.flags / 32768;
  opcode = h.flags / 2048 % 16;
  aa = h.flags / 1024 % 2;
  tc = h.flags / 512 % 2;
  rd = h.flags / 256 % 2;
  ra = h.flags / 128 % 2;
  z = h.flags / 16 % 8;
  rcode = h.flags % 16;
}

abbrev pub bit : Bool → ℕ
bit true = 1
bit false = 0

or_one : (a : ℕ) → bit_or a 1 ≡ a / 2 * 2 + 1
or_one a = omega (arith, or_step a 1, bit_or-zero (a / 2))

set_qr : (f : ℕ) → f < 65536 → bit_or f 0x8000 ≡ f / 65536 * 65536 + 32768 + f % 32768
set_qr f h =
    ground
      (arith, or_split 15 (f / 32768) (f % 32768) 1 0, or_one (f / 32768), bit_or-zero (f % 32768))

clear_qr : (f : ℕ) → f < 65536 → bit_and f (0xffff - 0x8000) ≡ f / 65536 * 65536 + f % 32768
clear_qr f h = ground (
  arith,
  and_split 16 (f / 65536) (f % 65536) 0 32767,
  and_mask 0 (f / 65536),
  and_mask 15 (f % 65536),
)

set_aa : (f : ℕ) → f < 65536 → bit_or f 0x0400 ≡ f / 2048 * 2048 + 1024 + f % 1024
set_aa f h =
    ground (arith, or_split 10 (f / 1024) (f % 1024) 1 0, or_one (f / 1024), bit_or-zero (f % 1024))

clear_aa : (f : ℕ) → f < 65536 → bit_and f (0xffff - 0x0400) ≡ f / 2048 * 2048 + f % 1024
clear_aa f h = ground (
  arith,
  and_split 11 (f / 2048) (f % 2048) 31 1023,
  and_mask 5 (f / 2048),
  and_mask 10 (f % 2048),
)

set_tc : (f : ℕ) → f < 65536 → bit_or f 0x0200 ≡ f / 1024 * 1024 + 512 + f % 512
set_tc f h =
    ground (arith, or_split 9 (f / 512) (f % 512) 1 0, or_one (f / 512), bit_or-zero (f % 512))

clear_tc : (f : ℕ) → f < 65536 → bit_and f (0xffff - 0x0200) ≡ f / 1024 * 1024 + f % 512
clear_tc f h =
    ground (
      arith,
      and_split 10 (f / 1024) (f % 1024) 63 511,
      and_mask 6 (f / 1024),
      and_mask 9 (f % 1024),
    )

set_rd : (f : ℕ) → f < 65536 → bit_or f 0x0100 ≡ f / 512 * 512 + 256 + f % 256
set_rd f h =
    ground (arith, or_split 8 (f / 256) (f % 256) 1 0, or_one (f / 256), bit_or-zero (f % 256))

clear_rd : (f : ℕ) → f < 65536 → bit_and f (0xffff - 0x0100) ≡ f / 512 * 512 + f % 256
clear_rd f h =
    ground
      (arith, and_split 9 (f / 512) (f % 512) 127 255, and_mask 7 (f / 512), and_mask 8 (f % 512))

set_ra : (f : ℕ) → f < 65536 → bit_or f 0x0080 ≡ f / 256 * 256 + 128 + f % 128
set_ra f h =
    ground (arith, or_split 7 (f / 128) (f % 128) 1 0, or_one (f / 128), bit_or-zero (f % 128))

clear_ra : (f : ℕ) → f < 65536 → bit_and f (0xffff - 0x0080) ≡ f / 256 * 256 + f % 128
clear_ra f h =
    ground
      (arith, and_split 8 (f / 256) (f % 256) 255 127, and_mask 8 (f / 256), and_mask 7 (f % 256))

clear_opcode : (f : ℕ) → f < 65536 → bit_and f (0xffff - 0x7800) ≡ f / 32768 * 32768 + f % 2048
clear_opcode f h = ground (
  arith,
  and_split 15 (f / 32768) (f % 32768) 1 2047,
  and_mask 1 (f / 32768),
  and_mask 11 (f % 32768),
)

clear_z : (f : ℕ) → f < 65536 → bit_and f (0xffff - 0x0070) ≡ f / 128 * 128 + f % 16
clear_z f h =
    ground
      (arith, and_split 7 (f / 128) (f % 128) 511 15, and_mask 9 (f / 128), and_mask 4 (f % 128))

clear_rcode : (f : ℕ) → f < 65536 → bit_and f (0xffff - 0x000f) ≡ f / 16 * 16 + f % 1
clear_rcode f h =
    ground (arith, and_split 4 (f / 16) (f % 16) 4095 0, and_mask 12 (f / 16), and_mask 0 (f % 16))

pub fields-with_qr :
    (v : Bool) (h : Header)
    → h.flags < 65536
    → fields (with_qr v h) ≡ record (fields h) { qr = bit v }
unfolding set_flag
fields-with_qr true h w = ground (arith, set_qr h.flags w)
fields-with_qr false h w = ground (arith, clear_qr h.flags w)

pub fields-with_aa :
    (v : Bool) (h : Header)
    → h.flags < 65536
    → fields (with_aa v h) ≡ record (fields h) { aa = bit v }
unfolding set_flag
fields-with_aa true h w = ground (arith, set_aa h.flags w)
fields-with_aa false h w = ground (arith, clear_aa h.flags w)

pub fields-with_tc :
    (v : Bool) (h : Header)
    → h.flags < 65536
    → fields (with_tc v h) ≡ record (fields h) { tc = bit v }
unfolding set_flag
fields-with_tc true h w = ground (arith, set_tc h.flags w)
fields-with_tc false h w = ground (arith, clear_tc h.flags w)

pub fields-with_rd :
    (v : Bool) (h : Header)
    → h.flags < 65536
    → fields (with_rd v h) ≡ record (fields h) { rd = bit v }
unfolding set_flag
fields-with_rd true h w = ground (arith, set_rd h.flags w)
fields-with_rd false h w = ground (arith, clear_rd h.flags w)

pub fields-with_ra :
    (v : Bool) (h : Header)
    → h.flags < 65536
    → fields (with_ra v h) ≡ record (fields h) { ra = bit v }
unfolding set_flag
fields-with_ra true h w = ground (arith, set_ra h.flags w)
fields-with_ra false h w = ground (arith, clear_ra h.flags w)

u8-lt_opcode : (op : Opcode) → opcode_to_u8 op < 16
unfolding opcode_to_u8
u8-lt_opcode (Opcode.other n) = omega (arith, and_mask 4 n)
u8-lt_opcode _ = omega arith

pub u8-lt_rcode : (rc : Rcode) → rcode_to_u8 rc < 16
unfolding rcode_to_u8
u8-lt_rcode (Rcode.other n) = omega (arith, and_mask 4 n)
u8-lt_rcode _ = omega arith

pub fields-with_opcode :
    (op : Opcode) (h : Header)
    → h.flags < 65536
    → fields (with_opcode op h) ≡ record (fields h) { opcode = opcode_to_u8 op }
unfolding with_opcode
fields-with_opcode op h w = ground (
  arith,
  clear_opcode h.flags w,
  u8-lt_opcode op,
  or_gap 11 4 (h.flags / 32768) (h.flags % 2048) (opcode_to_u8 op),
)

pub fields-with_z :
    (v : ℕ) (h : Header) → h.flags < 65536 → fields (with_z v h) ≡ record (fields h) { z = v % 8 }
unfolding with_z
fields-with_z v h w =
    ground
      (arith, clear_z h.flags w, and_mask 3 v, or_gap 4 3 (h.flags / 128) (h.flags % 16) (v % 8))

pub fields-with_rcode :
    (rc : Rcode) (h : Header)
    → h.flags < 65536
    → fields (with_rcode rc h) ≡ record (fields h) { rcode = rcode_to_u8 rc }
unfolding with_rcode
fields-with_rcode rc h w =
    ground
      (arith, clear_rcode h.flags w, u8-lt_rcode rc, or_gap 0 4 (h.flags / 16) 0 (rcode_to_u8 rc))

-- Each getter reads its own field of the flags word.
pub getters :
    (h : Header)
    → h.flags < 65536
    → (qr h ≡ ((fields h).qr == 1))
      × (opcode h ≡ opcode_of (fields h).opcode)
      × (aa h ≡ ((fields h).aa == 1))
      × (tc h ≡ ((fields h).tc == 1))
      × (rd h ≡ ((fields h).rd == 1))
      × (ra h ≡ ((fields h).ra == 1))
      × (z h ≡ (fields h).z)
      × (rcode h ≡ rcode_of (fields h).rcode)
unfolding has_flag opcode z rcode opcode_from_u8 rcode_from_u8
getters h w =
    let op : bit_and (bit_and h.flags flag_opcode / 2 ^ 11) 15 ≡ (fields h).opcode =
      omega (arith, and_field 11 4 h.flags, and_mask 4 (bit_and h.flags 0x7800 / 2 ^ 11)) in
    let rc : bit_and (bit_and h.flags flag_rcode) 15 ≡ (fields h).rcode =
      omega (arith, and_mask 4 h.flags, and_mask 4 (bit_and h.flags 0x000f)) in
    (
      ground (arith, and_field 15 1 h.flags),
      ap opcode_of op,
      ground (arith, and_field 10 1 h.flags),
      ground (arith, and_field 9 1 h.flags),
      ground (arith, and_field 8 1 h.flags),
      ground (arith, and_field 7 1 h.flags),
      omega (arith, and_field 4 3 h.flags),
      ap rcode_of rc,
    )

-- Each setter changes its own field of the flags word and no other.
pub setters :
    (v : Bool) (n : ℕ) (op : Opcode) (rc : Rcode) (h : Header)
    → h.flags < 65536
    → (fields (with_qr v h) ≡ record (fields h) { qr = bit v })
      × (fields (with_opcode op h) ≡ record (fields h) { opcode = opcode_to_u8 op })
      × (fields (with_aa v h) ≡ record (fields h) { aa = bit v })
      × (fields (with_tc v h) ≡ record (fields h) { tc = bit v })
      × (fields (with_rd v h) ≡ record (fields h) { rd = bit v })
      × (fields (with_ra v h) ≡ record (fields h) { ra = bit v })
      × (fields (with_z n h) ≡ record (fields h) { z = n % 8 })
      × (fields (with_rcode rc h) ≡ record (fields h) { rcode = rcode_to_u8 rc })
setters v n op rc h w = (
  fields-with_qr v h w,
  fields-with_opcode op h w,
  fields-with_aa v h w,
  fields-with_tc v h w,
  fields-with_rd v h w,
  fields-with_ra v h w,
  fields-with_z n h w,
  fields-with_rcode rc h w,
)
