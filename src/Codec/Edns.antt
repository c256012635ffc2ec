-- ===== src/Codec/Edns.antt =====
-- The EDNS part of src/codec/synth.rs: `EdnsInfo::scan` and the cookie of the OPT record. The source
-- turns each failed read into `None`; here the reads are chained, and a failure is `none` at the end.
pub mod Cookie
use sagittarius.Prelude.{
  ℕ, zero, suc, ◌+◌, ◌*◌, Bool, not, ◌&&◌, ◌||◌, Option, none, some, ltb, leb, ◌==◌, if◌then◌else◌,
  length, take, drop,
}
use sagittarius.Codec.Error.{Error, Result, ok, err, out_of_fuel, ◌>>=◌}
use sagittarius.Codec.Reader
use sagittarius.Codec.Reader.{Bytes, Reader, be_u16, read_u16, read_u32, read_slice}
use sagittarius.Codec.Name.Skip.{skip_rr}
use sagittarius.Codec.Header
use sagittarius.Codec.Header.{Header}
use sagittarius.Codec.Message.{Query}
use sagittarius.Codec.Ttl.{opt_type, skip_questions}

abbrev pub edns_option_cookie : ℕ
edns_option_cookie = 10

abbrev pub edns_client_cookie_len : ℕ
edns_client_cookie_len = 8

abbrev pub edns_cookie_max_len : ℕ
edns_cookie_max_len = 40

pub record EdnsInfo : Type 0 where
  pub udp_payload_size : ℕ
  pub cookie : Option Bytes

-- `Result::ok` on a result that holds an option.
abbrev pub or_none {ℓ} : {A : Type ℓ} → Result Error (Option A) → Option A
or_none (ok a) = a
or_none (err e) = none
or_none out_of_fuel = none

-- `EdnsInfo::valid_cookie_len`
unfoldable pub valid_cookie_len : ℕ → Bool
valid_cookie_len length =
    length == edns_client_cookie_len
    || (leb (edns_client_cookie_len * 2) length && leb length edns_cookie_max_len)

-- The loop of `extract_cookie`, from the option at `pos`.
unfoldable pub find_cookie : ℕ → Bytes → ℕ → Result Error (Option Bytes)
unfolding valid_cookie_len
find_cookie zero rdata pos = out_of_fuel
find_cookie (suc fuel) rdata pos =
    let code = be_u16 (take 2 (drop pos rdata)) in
    let size = be_u16 (take 2 (drop (pos + 2) rdata)) in
    let end = pos + 4 + size in
    let rest = find_cookie fuel rdata end in
    if not (leb (pos + 4) (length rdata))
    then ok none
    else if ltb (length rdata) end
    then ok none
    else if code == edns_option_cookie
    then ok (if valid_cookie_len size then some (take size (drop (pos + 4) rdata)) else none)
    else rest

-- A round moves on by four octets at least.
unfoldable pub extract_cookie : Bytes → Option Bytes
extract_cookie rdata = or_none (find_cookie (length rdata + 1) rdata 0)

-- The loop over the answer and authority sections.
unfoldable pub skip_records : ℕ → Reader → Result Error Reader
skip_records zero r = ok r
skip_records (suc n) r = do
  r1 ← skip_rr r
  (rr_type, r2) ← read_u16 r1
  (class, r3) ← read_u16 r2
  (ttl, r4) ← read_u32 r3
  (rdlength, r5) ← read_u16 r4
  (rdata, r6) ← read_slice r5 rdlength
  skip_records n r6

-- The loop over the additional section.
unfoldable pub find_opt : ℕ → Reader → Result Error (Option EdnsInfo)
find_opt zero r = ok none
find_opt (suc n) r = do
  r1 ← skip_rr r
  (rr_type, r2) ← read_u16 r1
  (rr_class, r3) ← read_u16 r2
  (ttl, r4) ← read_u32 r3
  (rdlength, r5) ← read_u16 r4
  (rdata, r6) ← read_slice r5 rdlength
  let rest = find_opt n r6
  if rr_type == opt_type
      then ok (some (record { udp_payload_size = rr_class; cookie = extract_cookie rdata }))
      else rest

-- `EdnsInfo::scan_inner`, before its failures are dropped.
unfoldable pub scan_sections : Bytes → Result Error (Option EdnsInfo)
scan_sections raw = do
  (header, r1) ← Header.read (Reader.new raw)
  r2 ← skip_questions header.qdcount r1
  r3 ← skip_records (header.ancount + header.nscount) r2
  find_opt header.arcount r3

-- `EdnsInfo::scan`
unfoldable pub scan : Query → Option EdnsInfo
scan query = or_none (scan_sections query.raw)
