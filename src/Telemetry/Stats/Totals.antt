-- ===== src/Telemetry/Stats/Totals.antt =====
-- The totals and the tracked keys of src/telemetry/stats.rs over a history of queries.
use sagittarius.Prelude.{
  ℕ, suc, ◌+◌, ◌^◌, ◌≤◌, ◌<◌, ◌≡◌, refl, ap, ◌∙◌, inl, inr, Bool, List, [], ◌∷◌, map, arith, equal,
  equal→path, equal_refl, if◌then◌else◌, Bool-cases, length,
}
use sagittarius.Codec.Reader.{Bytes}
use sagittarius.Codec.Name.Reverse.{IpAddr}
use sagittarius.Resolver.Local.{same_addr}
use sagittarius.Resolver.Local.Canonical.{same_addr→path, same_addr_refl}
use sagittarius.Resolver.Pipeline.{is_blocked}
use sagittarius.Telemetry.Stats.{
  QueryEvent, Stats, new_stats, next_count, max_tracked_domains, max_tracked_clients, is_cached,
  is_forwarded, count_if, record_event,
}
use sagittarius.Telemetry.Stats.Tracks.{
  Tracks, next_count_small, new_counts-Tracks, record_key-Tracks,
}

-- The number of events of a history with a property.
abbrev pub count : (QueryEvent → Bool) → List QueryEvent → ℕ
count test [] = 0
count test (e ∷ es) = if test e then suc (count test es) else count test es

count-length : (test : QueryEvent → Bool) (es : List QueryEvent) → count test es ≤ length es
count-length test [] = omega arith
count-length test (e ∷ es) = elim (Bool-cases (test e)) [
  | inl y ↦ rw y (omega (arith, count-length test es))
  | inr n ↦ rw n (omega (arith, count-length test es))
]

count_next :
    (test : QueryEvent → Bool) (e : QueryEvent) (es : List QueryEvent) (n : ℕ)
    → length es + 1 < 2 ^ 64
    → n ≡ count test es
    → count_if (test e) n ≡ count test (e ∷ es)
count_next test e es n h n_es = elim (Bool-cases (test e)) [
  | inl y ↦ rw y (next_count_small n (omega (arith, h, n_es, count-length test es)) ∙ ap suc n_es)
  | inr unmet ↦ rw unmet n_es
]

abbrev pub asked : List QueryEvent → List Bytes
asked es = map (λ (e : QueryEvent). e.qname.inner) es

abbrev pub askers : List QueryEvent → List IpAddr
askers es = map (λ (e : QueryEvent). e.client.ip) es

length-asked : (es : List QueryEvent) → length (asked es) ≡ length es
length-asked [] = refl
length-asked (e ∷ es) = ap suc (length-asked es)

length-askers : (es : List QueryEvent) → length (askers es) ≡ length es
length-askers [] = refl
length-askers (e ∷ es) = ap suc (length-askers es)

module _ (hash_domain : Bytes → ℕ) (hash_client : IpAddr → ℕ) where
  -- The statistics behind a history of recorded events, the latest event first.
  unfoldable pub record_all : List QueryEvent → Stats
  record_all [] = new_stats
  record_all (e ∷ es) = record_event hash_domain hash_client e (record_all es)

  -- The statistics count the events of a history.
  pub record Counts (es : List QueryEvent) (s : Stats) : Type 0 where
    pub total : s.total ≡ length es
    pub blocked : s.blocked ≡ count (λ e. is_blocked e.outcome) es
    pub cached : s.cached ≡ count (λ e. is_cached e.outcome) es
    pub forwarded : s.forwarded ≡ count (λ e. is_forwarded e.outcome) es
    pub domains : Tracks equal hash_domain (asked es) s.domains
    pub clients : Tracks same_addr hash_client (askers es) s.clients

  record_event-Counts :
      (e : QueryEvent) (es : List QueryEvent) (s : Stats)
      → length es + 1 < 2 ^ 64
      → Counts es s
      → Counts (e ∷ es) (record_event hash_domain hash_client e s)
  unfolding record_event
  record_event-Counts e es s h c = record {
    total = ap next_count c.total ∙ next_count_small (length es) h;
    blocked = count_next (λ e. is_blocked e.outcome) e es s.blocked h c.blocked;
    cached = count_next (λ e. is_cached e.outcome) e es s.cached h c.cached;
    forwarded = count_next (λ e. is_forwarded e.outcome) e es s.forwarded h c.forwarded;
    domains =
        record_key-Tracks equal equal→path equal_refl hash_domain (e.qname.inner) (asked es)
          s.domains c.domains (omega (arith, h, length-asked es));
    clients =
        record_key-Tracks same_addr same_addr→path same_addr_refl hash_client e.client.ip
          (askers es) s.clients c.clients (omega (arith, h, length-askers es));
  }

  -- After fewer than 2^64 recorded queries the four totals of the statistics are the numbers of all, the
  -- blocked, the cached and the forwarded queries; no shard of the tracked domains and clients is larger
  -- than its bound, a tracked key has the number of its queries as count, and an untracked key was never
  -- seen or has a full shard.
  pub record_all-Counts : (es : List QueryEvent) → length es < 2 ^ 64 → Counts es (record_all es)
  unfolding record_all new_stats
  record_all-Counts [] h = record {
    total = refl;
    blocked = refl;
    cached = refl;
    forwarded = refl;
    domains = new_counts-Tracks equal hash_domain max_tracked_domains;
    clients = new_counts-Tracks same_addr hash_client max_tracked_clients;
  }
  record_all-Counts (e ∷ es) h =
      record_event-Counts e es (record_all es) (omega (arith, h))
        (record_all-Counts es (omega (arith, h)))
