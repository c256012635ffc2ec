-- ===== src/Codec/Edns/Cookie.antt =====
-- The cookies that `EdnsInfo::scan` of src/codec/synth.rs accepts, and that the scan ends.
use sagittarius.Prelude.{
  ℕ, zero, suc, ◌+◌, ◌≤◌, ◌≡◌, refl, subst, ◌⊎◌, Bool, true, false, not, Option, none, some, arith,
  ltb, leb, ◌==◌, if◌then◌else◌, ltb→le, length, take, drop, length-take, length-drop,
}
use sagittarius.Codec.Error.{
  Error, Result, ok, err, out_of_fuel, ◌>>=◌, Returns, with_value, if-Returns, returns,
}
use sagittarius.Codec.Reader.{Bytes, Reader, be_u16}
use sagittarius.Codec.Reader.Laws.{read_u16-Returns, read_u32-Returns, read_slice-Returns}
use sagittarius.Codec.Name.Skip.Ends.{skip_rr-Returns}
use sagittarius.Codec.Header.Wire
use sagittarius.Codec.Ttl.Ends.{skip_questions-Returns}
use sagittarius.Codec.Message.{Query}
use sagittarius.Codec.Edns.{
  EdnsInfo, or_none, valid_cookie_len, find_cookie, extract_cookie, skip_records, find_opt,
  scan_sections, scan,
}

-- A client cookie, or one with a server cookie behind it (RFC 7873).
abbrev pub IsCookie : Bytes → Type 0
IsCookie c = (length c ≡ 8) ⊎ ((16 ≤ length c) × (length c ≤ 40))

-- A value that is found has `P`.
data Finds {ℓ} {A : Type ℓ} (P : A → Type 0) : Result Error (Option A) → Type ℓ where
  found : (a : A) → P a → Finds P (ok (some a))
  nothing : Finds P (ok none)
  failed : (e : Error) → Finds P (err e)
  stopped : Finds P out_of_fuel

>>=-Finds {ℓ} :
    {A : Type ℓ} {B : Type 0} {P : A → Type 0} (m : Result Error B)
    (f : B → Result Error (Option A))
    → ((b : B) → Finds P (f b))
    → Finds P (m >>= f)
>>=-Finds (ok b) f h = h b
>>=-Finds (err e) f h = failed e
>>=-Finds out_of_fuel f h = stopped

some-injective {ℓ} : {A : Type ℓ} {a b : A} → ◌≡◌ {A = Option A} (some a) (some b) → a ≡ b
some-injective h = cc

module _ {ℓ} {A : Type ℓ} {P : A → Type 0} where
  if-Finds :
      (b : Bool) (x y : Result Error (Option A))
      → (b ≡ true → Finds P x)
      → (b ≡ false → Finds P y)
      → Finds P (if b then x else y)
  if-Finds true x y hx hy = hx refl
  if-Finds false x y hx hy = hy refl

  test-Finds : (b : Bool) (a : A) → (b ≡ true → P a) → Finds P (ok (if b then some a else none))
  test-Finds true a h = found a (h refl)
  test-Finds false a h = nothing

  or_none-Finds : (m : Result Error (Option A)) {a : A} → Finds P m → or_none m ≡ some a → P a
  or_none-Finds (ok (some b)) (found _ p) e = subst P (some-injective e) p
  or_none-Finds (ok none) h e = cc
  or_none-Finds (err x) h e = cc
  or_none-Finds out_of_fuel h e = cc

find_cookie-Returns :
    (fuel : ℕ) (rdata : Bytes) (pos : ℕ)
    → length rdata + 1 ≤ pos + fuel
    → 1 ≤ fuel
    → Returns (find_cookie fuel rdata pos)
unfolding find_cookie
find_cookie-Returns zero rdata pos h k = absurd (omega arith)
find_cookie-Returns (suc fuel) rdata pos h k =
    let size = be_u16 (take 2 (drop (pos + 2) rdata)) in
    if-Returns (not (leb (pos + 4) (length rdata))) _ _ (λ _. with_value none)
      (λ inside.
        if-Returns (ltb (length rdata) (pos + 4 + size)) _ _ (λ _. with_value none)
          (λ _.
            if-Returns (be_u16 (take 2 (drop pos rdata)) == 10) _ _ (λ _. with_value _)
              (λ _.
                find_cookie-Returns fuel rdata (pos + 4 + size) (omega (arith, h))
                  (ground (arith, h, inside)))))

take-IsCookie :
    (rdata : Bytes) (start size : ℕ)
    → valid_cookie_len size ≡ true
    → start + size ≤ length rdata
    → IsCookie (take size (drop start rdata))
unfolding valid_cookie_len
take-IsCookie rdata start size h fits =
    let n : length (take size (drop start rdata)) ≡ size =
      omega (arith, length-take size (drop start rdata), length-drop start rdata, fits) in
    ground (arith, n, h)

find_cookie-Finds :
    (fuel : ℕ) (rdata : Bytes) (pos : ℕ) → Finds IsCookie (find_cookie fuel rdata pos)
unfolding find_cookie
find_cookie-Finds zero rdata pos = stopped
find_cookie-Finds (suc fuel) rdata pos =
    let size = be_u16 (take 2 (drop (pos + 2) rdata)) in
    if-Finds (not (leb (pos + 4) (length rdata))) _ _ (λ _. nothing)
      (λ _.
        if-Finds (ltb (length rdata) (pos + 4 + size)) _ _ (λ _. nothing)
          (λ fits.
            if-Finds (be_u16 (take 2 (drop pos rdata)) == 10) _ _
              (λ _.
                test-Finds (valid_cookie_len size) _
                  (λ valid. take-IsCookie rdata (pos + 4) size valid (ltb→le _ _ fits)))
              (λ _. find_cookie-Finds fuel rdata (pos + 4 + size))))

extract_cookie-IsCookie : (rdata : Bytes) {c : Bytes} → extract_cookie rdata ≡ some c → IsCookie c
unfolding extract_cookie
extract_cookie-IsCookie rdata h =
    or_none-Finds (find_cookie (length rdata + 1) rdata 0) (find_cookie-Finds _ rdata 0) h

ruleset reads = (
  returns, skip_rr-Returns, read_u16-Returns, read_u32-Returns, read_slice-Returns,
  Wire.read-Returns,
)

skip_records-Returns : (n : ℕ) (r : Reader) → Returns (skip_records n r)
unfolding skip_records
skip_records-Returns zero r = with_value r
skip_records-Returns (suc n) r = search (reads, skip_records-Returns n) depth 20

find_opt-Returns : (n : ℕ) (r : Reader) → Returns (find_opt n r)
unfolding find_opt
find_opt-Returns zero r = with_value none
find_opt-Returns (suc n) r = search (reads, find_opt-Returns n) depth 20

-- The scan for an OPT record ends on every datagram, and so does the search for its cookie.
pub scan_sections-Returns :
    (raw rdata : Bytes)
    → Returns (scan_sections raw) × Returns (find_cookie (length rdata + 1) rdata 0)
unfolding scan_sections
scan_sections-Returns raw rdata = (
  search (reads, skip_questions-Returns, skip_records-Returns, find_opt-Returns) depth 16,
  find_cookie-Returns (length rdata + 1) rdata 0 (omega arith) (omega arith),
)

-- An OPT record whose cookie, if it has one, has an allowed size.
abbrev pub HasCookie : EdnsInfo → Type 0
HasCookie i = (c : Bytes) → i.cookie ≡ some c → IsCookie c

found_opt :
    (size : ℕ) (rdata : Bytes)
    → Finds HasCookie
        (ok (some (record { udp_payload_size = size; cookie = extract_cookie rdata })))
found_opt size rdata = found _ (λ c e. extract_cookie-IsCookie rdata e)

find_opt-Finds : (n : ℕ) (r : Reader) → Finds HasCookie (find_opt n r)
unfolding find_opt
find_opt-Finds zero r = nothing
find_opt-Finds (suc n) r = search (found_opt, >>=-Finds, if-Finds, find_opt-Finds n) depth 20

scan_sections-Finds : (raw : Bytes) → Finds HasCookie (scan_sections raw)
unfolding scan_sections
scan_sections-Finds raw = search (>>=-Finds, find_opt-Finds) depth 12

-- Whatever the datagram, a cookie that the scan hands on has eight octets, or sixteen to forty.
pub scan-IsCookie :
    (query : Query) {i : EdnsInfo} {c : Bytes}
    → scan query ≡ some i
    → i.cookie ≡ some c
    → IsCookie c
unfolding scan
scan-IsCookie query {i} {c} h k =
    or_none-Finds (scan_sections query.raw) (scan_sections-Finds query.raw) h c k
