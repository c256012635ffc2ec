-- ===== src/Codec/Ttl.antt =====
-- src/codec/ttl.rs: the offsets of a response's TTL fields, and the least TTL.
pub mod Ends
pub mod Sound
use sagittarius.Prelude.{
  ℕ, zero, suc, ◌+◌, min, Option, none, some, List, [], ◌∷◌, ◌++◌, ◌==◌, if◌then◌else◌,
}
use sagittarius.Codec.Error.{Error, Result, ok, err, ◌>>=◌}
use sagittarius.Codec.Reader
use sagittarius.Codec.Reader.{Bytes, Reader, read_u16, read_u32, read_slice}
use sagittarius.Codec.Name.Skip.{skip_rr}
use sagittarius.Codec.Header
use sagittarius.Codec.Header.{Header}

abbrev pub opt_type : ℕ
opt_type = 41

pub record TtlScan : Type 0 where
  pub min_ttl : Option ℕ
  pub ttl_offsets : List ℕ

-- The loop over the question section.
unfoldable pub skip_questions : ℕ → Reader → Result Error Reader
skip_questions zero r = ok r
skip_questions (suc n) r = do
  r ← skip_rr r
  (qtype, r) ← read_u16 r
  (qclass, r) ← read_u16 r
  skip_questions n r

-- What the loop over the records keeps of one of them.
pub record Field : Type 0 where
  pub rr_type : ℕ
  pub ttl_offset : ℕ
  pub ttl : ℕ

-- The reads of one record.
unfoldable pub read_record : Reader → Result Error (Field × Reader)
read_record r = do
  r1 ← skip_rr r
  (rr_type, r2) ← read_u16 r1
  (class, r3) ← read_u16 r2
  (ttl, r4) ← read_u32 r3
  (rdlength, r5) ← read_u16 r4
  (rdata, r6) ← read_slice r5 rdlength
  ok (record { rr_type = rr_type; ttl_offset = r3.pos; ttl = ttl }, r6)

abbrev pub lower : Option ℕ → ℕ → ℕ
lower none ttl = ttl
lower (some prev) ttl = min prev ttl

-- The end of the loop's body: an OPT record changes nothing.
unfoldable pub tally : Field → TtlScan → TtlScan
tally f scan = if f.rr_type == opt_type then scan else record {
  min_ttl = some (lower scan.min_ttl f.ttl);
  ttl_offsets = scan.ttl_offsets ++ (f.ttl_offset ∷ []);
}

-- The loop over the records of the three sections.
unfoldable pub scan_records : ℕ → Reader → TtlScan → Result Error TtlScan
scan_records zero r scan = ok scan
scan_records (suc n) r scan = do (field, r) ← read_record r; scan_records n r (tally field scan)

abbrev pub no_records : TtlScan
no_records = record { min_ttl = none; ttl_offsets = [] }

-- `TtlScan::scan`
unfoldable pub scan : Bytes → Result Error TtlScan
scan message = do
  (header, r) ← Header.read (Reader.new message)
  r ← skip_questions header.qdcount r
  let rr_count = header.ancount + header.nscount + header.arcount
  scan_records rr_count r no_records
