-- ===== src/Resolver/Suffix.antt =====
-- The suffix probes of src/resolver/local.rs (wildcard records) and src/resolver/forward_zone.rs
-- (conditional forwarding). A `HashMap` is an association list; an address is the list of its octets,
-- and a zone's target, a `SocketAddr`, is a type of its own.
pub mod Labels
use sagittarius.Prelude.{
  ℕ, Bool, true, false, Option, none, some, List, [], ◌∷◌, ◌&&◌, ◌==◌, equal, if◌then◌else◌,
}
use sagittarius.Codec.Reader.{Bytes}
use sagittarius.Codec.Name.{Name}
use sagittarius.Codec.Name.Reverse.{IpAddr}
use sagittarius.Codec.Message.{Qtype}

-- `HashMap::get`, keyed by normalized text.
unfoldable pub lookup_key {ℓ} : {V : Type ℓ} → List (Bytes × V) → Bytes → Option V
lookup_key [] key = none
lookup_key ((k, v) ∷ entries) key =
    let rest = lookup_key entries key in if equal k key then some v else rest

unfoldable pub no_entries {ℓ} : {V : Type ℓ} → List (Bytes × V) → Bool
no_entries [] = true
no_entries (e ∷ es) = false

-- `search.is_empty() || search == "."`
unfoldable pub is_root : Bytes → Bool
is_root [] = true
is_root (b ∷ []) = b == b'.'
is_root (b ∷ c ∷ cs) = false

-- The loop: behind the next dot stands the suffix that is looked up.
unfoldable pub probe {ℓ} : {V : Type ℓ} → List (Bytes × V) → Bytes → Option V
unfolding is_root
probe map [] = none
probe map (b ∷ bs) =
    let rest = probe map bs in
    if b == b'.'
    then (if is_root bs then none else elim (lookup_key map bs) [ some v ↦ some v | none ↦ rest ])
    else rest

pub data RecordData : Type 0 where
  a : Bytes → RecordData
  aaaa : Bytes → RecordData

pub data LocalMatch : Type 0 where
  -- data, ttl
  answer : RecordData → ℕ → LocalMatch
  name_exists_no_data : LocalMatch
  miss : LocalMatch

pub record NameEntry : Type 0 where
  pub a : Option (Bytes × ℕ)
  pub aaaa : Option (Bytes × ℕ)

abbrev pub answered : (Bytes → RecordData) → Option (Bytes × ℕ) → LocalMatch
answered make (some (addr, ttl)) = answer (make addr) ttl
answered make none = name_exists_no_data

-- `NameEntry::resolve`
unfoldable pub resolve : NameEntry → Qtype → LocalMatch
resolve e Qtype.a = answered RecordData.a e.a
resolve e Qtype.aaaa = answered RecordData.aaaa e.aaaa
resolve e _ = name_exists_no_data

pub record LocalRecords : Type 0 where
  pub exact : List (Bytes × NameEntry)
  pub wildcard : List (Bytes × NameEntry)
  pub reverse : List (IpAddr × Name × ℕ)

abbrev pub resolved : Option NameEntry → Qtype → LocalMatch
resolved (some e) qtype = resolve e qtype
resolved none qtype = miss

-- `LocalRecords::lookup`
unfoldable pub lookup : LocalRecords → Name → Qtype → LocalMatch
lookup r qname qtype = elim (lookup_key r.exact qname.inner) [
  | some entry ↦ resolve entry qtype
  | none ↦ if no_entries r.wildcard then miss else resolved (probe r.wildcard qname.inner) qtype
]

-- `ForwardZoneSet::match_target`, on the map of the zones.
unfoldable pub match_target {ℓ} :
    {SocketAddr : Type ℓ} → List (Bytes × SocketAddr) → Name → Option SocketAddr
match_target zones qname = if no_entries zones then none else elim (lookup_key zones qname.inner) [
  | some target ↦ some target
  | none ↦ probe zones qname.inner
]
