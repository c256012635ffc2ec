-- ===== src/Resolver/Local.antt =====
-- The builder and the reverse index of src/resolver/local.rs. A `HashMap` is an association list, whose
-- order stands for the order of an iteration.
pub mod Canonical
pub mod Added
use sagittarius.Prelude.{
  ℕ, Bool, true, false, ◌&&◌, ◌||◌, Option, none, some, List, [], ◌∷◌, ltb, ◌==◌, equal,
  if◌then◌else◌, length,
}
use sagittarius.Codec.Error.{Error, Result, ok, err, ◌>>=◌, map_err}
use sagittarius.Codec.Reader.{Bytes}
use sagittarius.Codec.Name.{Name, from_str}
use sagittarius.Codec.Name.Reverse.{IpAddr, v4, v6}
use sagittarius.Resolver.Suffix.{is_root, RecordData, NameEntry, LocalRecords}

pub data BuildError : Type 0 where
  invalid_wildcard : Bytes → BuildError
  invalid_name : Bytes → Error → BuildError

pub record LocalRecordsBuilder : Type 0 where
  pub exact : List (Bytes × NameEntry)
  pub wildcard : List (Bytes × NameEntry)

-- `LocalRecordsBuilder::fill_entry`
unfoldable pub fill_entry : RecordData → ℕ → NameEntry → NameEntry
fill_entry (RecordData.a addr) ttl entry = record entry { a = some (addr, ttl) }
fill_entry (RecordData.aaaa addr) ttl entry = record entry { aaaa = some (addr, ttl) }

-- `map.entry(key).or_default()`, and the change of that entry.
unfoldable pub entry_or_default :
    Bytes → (NameEntry → NameEntry) → List (Bytes × NameEntry) → List (Bytes × NameEntry)
entry_or_default key f [] = (key, f (record { a = none; aaaa = none })) ∷ []
entry_or_default key f ((k, e) ∷ es) =
    let rest = entry_or_default key f es in if equal k key then (k, f e) ∷ es else (k, e) ∷ rest

-- `name.strip_prefix("*.")`
unfoldable pub strip_star : Bytes → Option Bytes
strip_star (x ∷ y ∷ rest) = if x == b'*' && y == b'.' then some rest else none
strip_star _ = none

-- `LocalRecordsBuilder::add`
unfoldable pub add :
    Bytes → RecordData → ℕ → LocalRecordsBuilder → Result BuildError LocalRecordsBuilder
unfolding strip_star
add name d ttl b = elim (strip_star name) [
  | some wildcard_suffix ↦ if is_root wildcard_suffix then err (invalid_wildcard name) else (do
    suffix ← map_err (invalid_name name) (from_str wildcard_suffix)
    ok (record b { wildcard = entry_or_default suffix.inner (fill_entry d ttl) b.wildcard }))
  | none ↦ if equal name (b'*' ∷ []) then err (invalid_wildcard name) else (do
    parsed ← map_err (invalid_name name) (from_str name)
    ok (record b { exact = entry_or_default parsed.inner (fill_entry d ttl) b.exact }))
]

-- The order of `str`, on its bytes.
unfoldable pub before : Bytes → Bytes → Bool
before xs [] = false
before [] (y ∷ ys) = true
before (x ∷ xs) (y ∷ ys) = ltb x y || (x == y && before xs ys)

-- `LocalRecordsBuilder::is_more_canonical`
unfoldable pub is_more_canonical : Name → Name → Bool
is_more_canonical candidate current =
    ltb (length candidate.inner) (length current.inner)
    || (length candidate.inner == length current.inner && before candidate.inner current.inner)

abbrev pub same_addr : IpAddr → IpAddr → Bool
same_addr (v4 x) (v4 y) = equal x y
same_addr (v6 x) (v6 y) = equal x y
same_addr (v4 x) (v6 y) = false
same_addr (v6 x) (v4 y) = false

-- `LocalRecordsBuilder::insert_reverse`
unfoldable pub insert_reverse :
    List (IpAddr × Name × ℕ) → IpAddr → Name → ℕ → List (IpAddr × Name × ℕ)
insert_reverse [] ip name ttl = (ip, name, ttl) ∷ []
insert_reverse ((k, current, t) ∷ slots) ip name ttl =
    let rest = insert_reverse slots ip name ttl in
    if same_addr k ip
    then (if is_more_canonical name current
        then (k, name, ttl) ∷ slots
        else (k, current, t) ∷ slots)
    else (k, current, t) ∷ rest

-- The body of the loop of `build_reverse`, for the one and the other address.
abbrev pub insert_some :
    (Bytes → IpAddr)
    → Option (Bytes × ℕ)
    → Name
    → List (IpAddr × Name × ℕ)
    → List (IpAddr × Name × ℕ)
insert_some make none name reverse = reverse
insert_some make (some (addr, ttl)) name reverse = insert_reverse reverse (make addr) name ttl

unfoldable pub index_entries :
    List (Bytes × NameEntry) → List (IpAddr × Name × ℕ) → List (IpAddr × Name × ℕ)
index_entries [] reverse = reverse
index_entries ((name, entry) ∷ entries) reverse = index_entries entries (
    insert_some v6 entry.aaaa (record { inner = name })
      (insert_some v4 entry.a (record { inner = name }) reverse))

-- `LocalRecordsBuilder::build_reverse`
abbrev pub build_reverse : List (Bytes × NameEntry) → List (IpAddr × Name × ℕ)
build_reverse exact = index_entries exact []

-- `LocalRecordsBuilder::build`
unfoldable pub build_records : LocalRecordsBuilder → LocalRecords
build_records b = record { exact = b.exact; wildcard = b.wildcard; reverse = build_reverse b.exact }

-- `self.reverse.get(&ip)`
unfoldable pub lookup_addr : List (IpAddr × Name × ℕ) → IpAddr → Option (Name × ℕ)
lookup_addr [] ip = none
lookup_addr ((k, name, ttl) ∷ slots) ip =
    let rest = lookup_addr slots ip in if same_addr k ip then some (name, ttl) else rest

-- `LocalRecords::reverse_lookup`
unfoldable pub reverse_lookup : LocalRecords → IpAddr → Option (Name × ℕ)
reverse_lookup records ip = lookup_addr records.reverse ip
