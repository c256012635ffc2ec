-- ===== src/Resolver/Local/Canonical.antt =====
-- The reverse index of src/resolver/local.rs holds the canonical owner of each address.
use sagittarius.Prelude.{
  ℕ, ◌≡◌, refl, sym, ap, ◌∙◌, subst, ◌⊎◌, inl, inr, true, false, Option, none, some, List, [], ◌∷◌,
  arith, equal→path, equal_refl, if◌then◌else◌, Bool-cases,
}
use sagittarius.Codec.Reader.{Bytes}
use sagittarius.Codec.Name.{Name}
use sagittarius.Codec.Name.Reverse.{IpAddr, v4, v6}
use sagittarius.Resolver.Suffix.{NameEntry}
use sagittarius.Resolver.Local.{
  LocalRecordsBuilder, before, is_more_canonical, same_addr, insert_reverse, insert_some,
  index_entries, build_records, lookup_addr, reverse_lookup,
}

pub same_addr→path : (x y : IpAddr) → same_addr x y ≡ true → x ≡ y
same_addr→path (v4 x) (v4 y) h = ap v4 (equal→path x y h)
same_addr→path (v6 x) (v6 y) h = ap v6 (equal→path x y h)
same_addr→path (v4 x) (v6 y) h = cc
same_addr→path (v6 x) (v4 y) h = cc

pub same_addr_refl : (x : IpAddr) → same_addr x x ≡ true
same_addr_refl (v4 x) = equal_refl x
same_addr_refl (v6 x) = equal_refl x

before_irrefl : (xs : Bytes) → before xs xs ≡ false
unfolding before
before_irrefl [] = refl
before_irrefl (x ∷ xs) = ground (arith, before_irrefl xs)

before_trans : (xs ys zs : Bytes) → before xs ys ≡ true → before ys zs ≡ true → before xs zs ≡ true
unfolding before
before_trans xs [] zs h k = cc
before_trans xs (y ∷ ys) [] h k = cc
before_trans [] (y ∷ ys) (z ∷ zs) h k = refl
before_trans (x ∷ xs) (y ∷ ys) (z ∷ zs) h k = ground (arith, h, k, before_trans xs ys zs)

is_more_canonical_irrefl : (n : Name) → is_more_canonical n n ≡ false
unfolding is_more_canonical
is_more_canonical_irrefl n = ground (arith, before_irrefl n.inner)

is_more_canonical_trans :
    (a b c : Name)
    → is_more_canonical a b ≡ true
    → is_more_canonical b c ≡ true
    → is_more_canonical a c ≡ true
unfolding is_more_canonical
is_more_canonical_trans a b c h k = ground (arith, h, k, before_trans a.inner b.inner c.inner)

-- The choice of the index between what it holds and an owner.
abbrev choose_owner : Option (Name × ℕ) → Name → ℕ → Name × ℕ
choose_owner none name ttl = (name, ttl)
choose_owner (some (current, t)) name ttl =
    if is_more_canonical name current then (name, ttl) else (current, t)

lookup_addr-insert_reverse :
    (slots : List (IpAddr × Name × ℕ)) (k : IpAddr) (name : Name) (ttl : ℕ) (ip : IpAddr)
    → lookup_addr (insert_reverse slots k name ttl) ip ≡ (
        if same_addr k ip
        then some (choose_owner (lookup_addr slots ip) name ttl)
        else lookup_addr slots ip)
unfolding lookup_addr insert_reverse
lookup_addr-insert_reverse [] k name ttl ip = refl
lookup_addr-insert_reverse ((l, current, t) ∷ slots) k name ttl ip =
    elim (Bool-cases (same_addr l k)) [
      | inl same ↦
          let k_ip : same_addr k ip ≡ same_addr l ip =
            ap (λ x. same_addr x ip) (sym (same_addr→path l k same)) in
          elim (Bool-cases (is_more_canonical name current)) [
            | inl more ↦ elim (Bool-cases (same_addr l ip)) [
              | inl here ↦ rw (same, more, k_ip, here, more) refl
              | inr there ↦ rw (same, more, k_ip, there) refl
            ]
            | inr less ↦ elim (Bool-cases (same_addr l ip)) [
              | inl here ↦ rw (same, less, k_ip, here, less) refl
              | inr there ↦ rw (same, less, k_ip, there) refl
            ]
          ]
      | inr other ↦ elim (Bool-cases (same_addr l ip)) [
        | inl here ↦ elim (Bool-cases (same_addr k ip)) [
          | inl both ↦
              let l_k : same_addr l k ≡ true =
                subst (λ x. same_addr x k ≡ true)
                  (same_addr→path k ip both ∙ sym (same_addr→path l ip here)) (same_addr_refl k) in
              absurd (cc (sym other ∙ l_k))
          | inr elsewhere ↦ rw (other, here, elsewhere) refl
        ]
        | inr there ↦ rw (other, there) (lookup_addr-insert_reverse slots k name ttl ip)
      ]
    ]

-- The owner that stands for all: no owner is more canonical.
pub data IsCanonical (P : Name → ℕ → Type 0) : Option (Name × ℕ) → Type 0 where
  nobody : ((n : Name) (t : ℕ) → ¬ (P n t)) → IsCanonical P none
  owner :
      (n : Name) (t : ℕ)
      → P n t
      → ((m : Name) (u : ℕ) → P m u → is_more_canonical m n ≡ false)
      → IsCanonical P (some (n, t))

IsCanonical-map :
    {P Q : Name → ℕ → Type 0} {o : Option (Name × ℕ)}
    → ((n : Name) (t : ℕ) → P n t → Q n t)
    → ((n : Name) (t : ℕ) → Q n t → P n t)
    → IsCanonical P o
    → IsCanonical Q o
IsCanonical-map f g (nobody h) = nobody (λ n t q. h n t (g n t q))
IsCanonical-map f g (owner n t p h) = owner n t (f n t p) (λ m u q. h m u (g m u q))

-- One more owner.
abbrev Either : (P : Name → ℕ → Type 0) → Name → ℕ → Name → ℕ → Type 0
Either P name ttl n t = P n t ⊎ ((n ≡ name) × (t ≡ ttl))

choose_owner-IsCanonical :
    (P : Name → ℕ → Type 0) (o : Option (Name × ℕ)) (name : Name) (ttl : ℕ)
    → IsCanonical P o
    → IsCanonical (Either P name ttl) (some (choose_owner o name ttl))
choose_owner-IsCanonical P _ name ttl (nobody h) = owner name ttl (inr (refl, refl)) (λ m u q.
    elim q [ inl p ↦ absurd (h m u p) | inr (e, _) ↦ rw e (is_more_canonical_irrefl name) ])
choose_owner-IsCanonical P _ name ttl (owner n t p h) =
    elim (Bool-cases (is_more_canonical name n)) [
      | inl more ↦ rw more (
          owner name ttl (inr (refl, refl)) (λ m u q. elim q [
            | inr (e, _) ↦ rw e (is_more_canonical_irrefl name)
            | inl p' ↦ elim (Bool-cases (is_more_canonical m name)) [
              | inr no_more ↦ no_more
              | inl before_name ↦
                  absurd (cc (sym (h m u p') ∙ is_more_canonical_trans m name n before_name more))
            ]
          ]))
      | inr less ↦
          rw less
            (owner n t (inl p) (λ m u q. elim q [ inl p' ↦ h m u p' | inr (e, _) ↦ rw e less ]))
    ]

-- An address slot of an entry that holds the address.
abbrev pub Held : (Bytes → IpAddr) → Option (Bytes × ℕ) → IpAddr → ℕ → Type 0
Held make slot ip t = (addr : Bytes) × (slot ≡ some (addr, t)) × (same_addr (make addr) ip ≡ true)

-- A name of the records that has the address, and its TTL.
abbrev pub Owns : IpAddr → List (Bytes × NameEntry) → Name → ℕ → Type 0
Owns ip [] n t = ⊥
Owns ip ((name, entry) ∷ entries) n t =
    ((n ≡ record { inner = name }) × (Held v4 entry.a ip t ⊎ Held v6 entry.aaaa ip t))
    ⊎ Owns ip entries n t

insert_some-IsCanonical :
    (P : Name → ℕ → Type 0) (make : Bytes → IpAddr) (slot : Option (Bytes × ℕ)) (name : Name)
    (slots : List (IpAddr × Name × ℕ)) (ip : IpAddr)
    → IsCanonical P (lookup_addr slots ip)
    → IsCanonical
        (λ n t. P n t ⊎ ((n ≡ name) × Held make slot ip t))
        (lookup_addr (insert_some make slot name slots) ip)
insert_some-IsCanonical P make none name slots ip h =
    IsCanonical-map (λ n t p. inl p)
      (λ n t q. elim q [ inl p ↦ p | inr (_, (addr, e, _)) ↦ absurd (cc e) ]) h
insert_some-IsCanonical P make (some (addr, ttl)) name slots ip h =
    elim (Bool-cases (same_addr (make addr) ip)) [
      | inl same ↦
          rw (lookup_addr-insert_reverse slots (make addr) name ttl ip, same)
            (IsCanonical-map
              (λ n t q. elim q [
                | inl p ↦ inl p
                | inr (e, e') ↦ inr (e, (addr, ap (λ (x : ℕ). some (addr, x)) (sym e'), same))
              ])
              (λ n t q. elim q [ inl p ↦ inl p | inr (e, (addr', e', _)) ↦ inr (e, cc e') ])
              (choose_owner-IsCanonical P (lookup_addr slots ip) name ttl h))
      | inr other ↦
          rw (lookup_addr-insert_reverse slots (make addr) name ttl ip, other)
            (IsCanonical-map (λ n t p. inl p)
              (λ n t q. elim q [
                | inl p ↦ p
                | inr (_, (addr', e', s)) ↦
                    let same : addr ≡ addr' = cc e' in
                    absurd (cc (sym other ∙ ap (λ (x : Bytes). same_addr (make x) ip) same ∙ s))
              ])
              h)
    ]

index_entries-IsCanonical :
    (entries : List (Bytes × NameEntry)) (P : Name → ℕ → Type 0) (slots : List (IpAddr × Name × ℕ))
    (ip : IpAddr)
    → IsCanonical P (lookup_addr slots ip)
    → IsCanonical
        (λ n t. P n t ⊎ Owns ip entries n t)
        (lookup_addr (index_entries entries slots) ip)
unfolding index_entries
index_entries-IsCanonical [] P slots ip h =
    IsCanonical-map (λ n t p. inl p) (λ n t q. elim q [ inl p ↦ p | inr no_one ↦ absurd no_one ]) h
index_entries-IsCanonical ((name, entry) ∷ entries) P slots ip h =
    let n' : Name = record { inner = name } in
    let with_a = insert_some-IsCanonical P v4 entry.a n' slots ip h in
    let with_aaaa =
      insert_some-IsCanonical _ v6 entry.aaaa n' (insert_some v4 entry.a n' slots) ip with_a in
    IsCanonical-map
      (λ n t q. elim q [
        | inl (inl (inl p)) ↦ inl p
        | inl (inl (inr (e, x))) ↦ inr (inl (e, inl x))
        | inl (inr (e, x)) ↦ inr (inl (e, inr x))
        | inr later ↦ inr (inr later)
      ])
      (λ n t q. elim q [
        | inl p ↦ inl (inl (inl p))
        | inr (inl (e, inl x)) ↦ inl (inl (inr (e, x)))
        | inr (inl (e, inr x)) ↦ inl (inr (e, x))
        | inr (inr later) ↦ inr later
      ])
      (index_entries-IsCanonical entries _ _ ip with_aaaa)

-- The reverse lookup of an address in records that were built finds a name that has the address as
-- an exact record, with its TTL, and of all such names the most canonical; it finds none only if no
-- name has the address.
pub reverse_lookup-IsCanonical :
    (b : LocalRecordsBuilder) (ip : IpAddr)
    → IsCanonical (Owns ip b.exact) (reverse_lookup (build_records b) ip)
unfolding reverse_lookup build_records lookup_addr
reverse_lookup-IsCanonical b ip =
    IsCanonical-map (λ n t q. elim q [ inl no_one ↦ absurd no_one | inr o ↦ o ]) (λ n t o. inr o)
      (index_entries-IsCanonical b.exact (λ n t. ⊥) [] ip (nobody (λ n t no_one. no_one)))
