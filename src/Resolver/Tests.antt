-- ===== src/Resolver/Tests.antt =====
-- Runs of the resolver's parts on concrete data.
pub mod Records
pub mod Requests
pub mod Listening
pub mod Upstreams
use sagittarius.Prelude.{
  ℕ, ◌-◌, ◌≤◌, Bool, true, false, leb, if◌then◌else◌, Bool-cases, ◌≡◌, refl, ◌⊎◌, inl, inr, min,
  Option, none, some, List, [], ◌∷◌, arith,
}
use sagittarius.Codec.Reader.{Bytes}
use sagittarius.Codec.Message.{Question, a, internet}
use sagittarius.Codec.Tests.{name_a_b, a_b-IsValid}
use sagittarius.Codec.Tests.Answers.{one_record, one_scan, scan_one}
use sagittarius.Resolver.Cache.{
  CachedResponse, Moka, DnsCache, new, set_ttl_bounds, clamp_ttl, insert, get, patched_for,
}
use sagittarius.Resolver.Cache.Patch.{AreOctets}
use sagittarius.Resolver.Cache.Serve.{IsServed, entry, Holds, patched_for-IsServed, get-insert}
use sagittarius.Resolver.Cache.Clamp.{clamp_ttl-set_ttl_bounds}
use sagittarius.Resolver.Suffix.{
  NameEntry, LocalRecords, resolve, resolved, lookup_key, lookup, match_target,
}
use sagittarius.Resolver.Suffix.Labels.{
  first_parent, exact_or, lookup-first_parent, match_target-first_parent,
}

-- A cache of one place, that holds the entry inserted last for every question.
abbrev one_place : Moka (Option CachedResponse)
one_place = record { insert = λ s k v. some v; get = λ s k. s; invalidate_all = λ s. none }

one_place-Holds : Holds one_place
one_place-Holds s k v = inr refl

abbrev pub asked : Question
asked = record { name = name_a_b; qtype = a; qclass = internet }

abbrev empty_cache : DnsCache (Option CachedResponse)
empty_cache = new one_place none 60 3600

abbrev pub are_octets : Bytes → Bool
are_octets [] = true
are_octets (b ∷ bs) = if leb 256 b then false else are_octets bs

pub are_octets_lem : (l : Bytes) → are_octets l ≡ true → AreOctets l
are_octets_lem [] h = tt
are_octets_lem (b ∷ bs) h = elim (Bool-cases (leb 256 b)) [
  | inl large ↦ cc (rw large at h)
  | inr small ↦ (ground (arith, small), are_octets_lem bs (rw small at h))
]

pub octets : AreOctets one_record
octets = are_octets_lem one_record refl

abbrev stored : CachedResponse
stored = entry one_place 1000 one_record one_scan.ttl_offsets 300 empty_cache

get-insert_example :
    ((one_place.get (one_place.insert none asked stored) asked ≡ none)
      × (get one_place 1010 asked 0xbeef
            (insert one_place 1000 asked one_record one_scan.ttl_offsets 300 empty_cache)
          ≡ none))
    ⊎ ((served : Bytes) × (one_place.get (one_place.insert none asked stored) asked ≡ some stored)
        × (get one_place 1010 asked 0xbeef
              (insert one_place 1000 asked one_record one_scan.ttl_offsets 300 empty_cache)
            ≡ some served)
        × IsServed stored 0xbeef (min (1010 - 1000) 4294967295) served)
get-insert_example =
    get-insert one_place one_place-Holds 1000 1010 asked one_record 300 0xbeef empty_cache octets
      scan_one

abbrev router : NameEntry
router = record { a = some (10 ∷ 0 ∷ 0 ∷ 1 ∷ [], 300); aaaa = none }

-- `*.b` as the only record.
abbrev pub wildcards : LocalRecords
wildcards = record { exact = []; wildcard = (b'b' ∷ b'.' ∷ [], router) ∷ []; reverse = [] }

lookup-first_parent_example :
    lookup wildcards name_a_b a
    ≡ exact_or
        (lookup_key wildcards.exact name_a_b.inner)
        (λ e. resolve e a)
        (resolved (first_parent wildcards.wildcard a_b-IsValid.labels) a)
lookup-first_parent_example = lookup-first_parent wildcards name_a_b a_b-IsValid a

abbrev pub zones : List (Bytes × ℕ)
zones = (b'b' ∷ b'.' ∷ [], 5353) ∷ []
