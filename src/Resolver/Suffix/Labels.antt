-- ===== src/Resolver/Suffix/Labels.antt =====
-- The suffix probes of src/resolver/local.rs and src/resolver/forward_zone.rs against names as lists
-- of labels: a probe stands at a label's boundary, and the longest suffix wins.
use sagittarius.Prelude.{
  ℕ, ◌≡◌, refl, sym, ap, ◌∙◌, inl, inr, true, false, Option, none, some, List, [], ◌∷◌, ◌++◌, ◌==◌,
  All, Bool-cases, Option-cases, arith,
}
use sagittarius.Codec.Reader.{Bytes}
use sagittarius.Codec.Name.{Name}
use sagittarius.Codec.Name.Valid.{IsLabelByte, IsLabel, dotted, text, IsValid}
use sagittarius.Codec.Message.{Qtype}
use sagittarius.Resolver.Suffix.{
  lookup_key, no_entries, is_root, probe, NameEntry, LocalRecords, resolve, resolved, lookup,
  match_target,
}

-- The first of the suffixes of `ls` that is a key, the longest before the others; the root is none.
abbrev pub first_suffix {ℓ} : {V : Type ℓ} → List (Bytes × V) → List Bytes → Option V
first_suffix map [] = none
first_suffix map (l ∷ ls) = elim (lookup_key map (dotted (l ∷ ls))) [
  | some v ↦ some v
  | none ↦ first_suffix map ls
]

-- The suffixes that are shorter than the name.
abbrev pub first_parent {ℓ} : {V : Type ℓ} → List (Bytes × V) → List Bytes → Option V
first_parent map [] = none
first_parent map (l ∷ ls) = first_suffix map ls

no_dot : (b : ℕ) → IsLabelByte b → (b == b'.') ≡ false
no_dot b h = ground (arith, h)

-- The probe passes over the octets of a label.
probe-append {ℓ} :
    {V : Type ℓ} (map : List (Bytes × V)) (l xs : Bytes)
    → All IsLabelByte l
    → probe map (l ++ xs) ≡ probe map xs
unfolding probe
probe-append map [] xs h = refl
probe-append map (b ∷ bs) xs h = rw (no_dot b h.0) (probe-append map bs xs h.1)

-- A label in front is no root.
not_root : (l : Bytes) (xs : Bytes) → IsLabel l → is_root (l ++ (b'.' ∷ xs)) ≡ false
unfolding is_root
not_root [] xs h = absurd (omega (arith, h.lower))
not_root (b ∷ []) xs h = refl
not_root (b ∷ c ∷ cs) xs h = refl

probe-dotted {ℓ} :
    {V : Type ℓ} (map : List (Bytes × V)) (l : Bytes) (ls : List Bytes)
    → IsLabel l
    → All IsLabel ls
    → probe map (dotted (l ∷ ls)) ≡ first_suffix map ls
unfolding probe is_root
probe-dotted map l [] h hs = probe-append map l (b'.' ∷ []) h.bytes
probe-dotted map l (m ∷ ms) h hs =
    probe-append map l (b'.' ∷ dotted (m ∷ ms)) h.bytes
    ∙ rw (not_root m (dotted ms) hs.0) (
        ap
          (λ (rest : Option _). elim (lookup_key map (dotted (m ∷ ms))) [
            | some v ↦ some v
            | none ↦ rest
          ])
          (probe-dotted map m ms hs.0 hs.1))

probe-text {ℓ} :
    {V : Type ℓ} (map : List (Bytes × V)) (ls : List Bytes)
    → All IsLabel ls
    → probe map (text ls) ≡ first_parent map ls
unfolding probe is_root
probe-text map [] hs = refl
probe-text map (l ∷ ls) hs = probe-dotted map l ls hs.0 hs.1

probe_empty {ℓ} :
    {V : Type ℓ} (map : List (Bytes × V)) (xs : Bytes) → no_entries map ≡ true → probe map xs ≡ none
unfolding no_entries probe lookup_key
probe_empty (e ∷ es) xs h = cc
probe_empty [] [] h = refl
probe_empty [] (b ∷ bs) h = elim (Bool-cases (b == b'.')) [
  | inl dot ↦ elim (Bool-cases (is_root bs)) [
    | inl root ↦ rw (dot, root) refl
    | inr more ↦ rw (dot, more) (probe_empty [] bs refl)
  ]
  | inr other ↦ rw other (probe_empty [] bs refl)
]

lookup_key-empty {ℓ} :
    {V : Type ℓ} (map : List (Bytes × V)) (key : Bytes)
    → no_entries map ≡ true
    → lookup_key map key ≡ none
unfolding no_entries lookup_key
lookup_key-empty [] key h = refl
lookup_key-empty (e ∷ es) key h = cc

-- What the exact records say, and what else.
abbrev pub exact_or {ℓ κ} : {V : Type ℓ} {A : Type κ} → Option V → (V → A) → A → A
exact_or (some v) f other = f v
exact_or none f other = other

-- A local lookup of a valid name takes the exact record, else the wildcard of the longest suffix
-- that is shorter than the name and begins at a label, and else misses.
pub lookup-first_parent :
    (r : LocalRecords) (qname : Name) (v : IsValid qname) (qtype : Qtype)
    → lookup r qname qtype
      ≡ exact_or
          (lookup_key r.exact qname.inner)
          (λ e. resolve e qtype)
          (resolved (first_parent r.wildcard v.labels) qtype)
unfolding lookup
lookup-first_parent r qname v qtype =
    let probed : probe r.wildcard qname.inner ≡ first_parent r.wildcard v.labels =
      ap (probe r.wildcard) v.is_text ∙ probe-text r.wildcard v.labels v.are_labels in
    elim (Option-cases (lookup_key r.exact qname.inner)) [
      | inl none_here ↦
          rw (none_here, lookup)
            (elim (Bool-cases (no_entries r.wildcard)) [
              | inl empty ↦ rw empty (
                  ap (λ (o : Option NameEntry). resolved o qtype)
                    (sym (sym probed ∙ probe_empty r.wildcard qname.inner empty)))
              | inr some_there ↦ rw (some_there, probed) refl
            ])
      | inr (e, here) ↦ rw (here, lookup) refl
    ]

-- The zone of a valid name is the one named like it, else the one of its longest suffix that begins
-- at a label, and none if neither is a zone.
pub match_target-first_parent {ℓ} :
    {SocketAddr : Type ℓ} (zones : List (Bytes × SocketAddr)) (qname : Name) (v : IsValid qname)
    → match_target zones qname
      ≡ exact_or (lookup_key zones qname.inner) some (first_parent zones v.labels)
unfolding match_target
match_target-first_parent zones qname v =
    let probed : probe zones qname.inner ≡ first_parent zones v.labels =
      ap (probe zones) v.is_text ∙ probe-text zones v.labels v.are_labels in
    elim (Bool-cases (no_entries zones)) [
      | inl empty ↦
          rw (empty, lookup_key-empty zones qname.inner empty)
            (sym (sym probed ∙ probe_empty zones qname.inner empty))
      | inr some_there ↦ rw some_there (elim (Option-cases (lookup_key zones qname.inner)) [
        | inl none_here ↦ rw (none_here, match_target) probed
        | inr (t, here) ↦ rw (here, match_target) refl
      ])
    ]
