-- ===== src/Resolver/Local/Added.antt =====
-- What the local records answer behind `LocalRecordsBuilder::add` of src/resolver/local.rs.
use sagittarius.Prelude.{
  ℕ, ◌≡◌, refl, sym, ap, ◌∙◌, subst, ◌⊎◌, inl, inr, true, false, none, some, List, [], ◌∷◌, arith,
  ◌==◌, equal, equal→path, equal_refl, Bool-cases, Option-cases, All,
}
use sagittarius.Codec.Error.{ok}
use sagittarius.Codec.Reader.{Bytes}
use sagittarius.Codec.Message.{Qtype}
use sagittarius.Codec.Name.{Name}
use sagittarius.Codec.Name.Valid.{IsValid, IsLabelByte, IsLabel, text}
use sagittarius.Codec.Name.Parse.{from_str-inner}
use sagittarius.Resolver.Suffix.{
  RecordData, NameEntry, answer, name_exists_no_data, lookup_key, lookup, resolve,
}
use sagittarius.Resolver.Local.{
  LocalRecordsBuilder, fill_entry, entry_or_default, strip_star, add, build_records,
}

equal_sym : (xs ys : Bytes) → equal xs ys ≡ true → equal ys xs ≡ true
equal_sym xs ys h = subst (λ z. equal z xs ≡ true) (equal→path xs ys h) (equal_refl xs)

abbrev no_data : NameEntry
no_data = record { a = none; aaaa = none }

module _ (key : Bytes) (f : NameEntry → NameEntry) where
  entry_or_default-here :
      (es : List (Bytes × NameEntry)) (e : NameEntry)
      → lookup_key es key ≡ some e
      → lookup_key (entry_or_default key f es) key ≡ some (f e)
  unfolding entry_or_default lookup_key
  entry_or_default-here [] e h = absurd (cc h)
  entry_or_default-here ((k, v) ∷ es) e h = elim (Bool-cases (equal k key)) [
    | inl y ↦
        let v_e : v ≡ e = cc (rw y at h) in rw y (rw y (ap (λ (x : NameEntry). some (f x)) v_e))
    | inr n ↦ rw n (rw n (entry_or_default-here es e (rw n at h)))
  ]

  entry_or_default-new :
      (es : List (Bytes × NameEntry))
      → lookup_key es key ≡ none
      → lookup_key (entry_or_default key f es) key ≡ some (f no_data)
  unfolding entry_or_default lookup_key
  entry_or_default-new [] h = rw (equal_refl key) refl
  entry_or_default-new ((k, v) ∷ es) h = elim (Bool-cases (equal k key)) [
    | inl y ↦ absurd (cc (rw y at h))
    | inr n ↦ rw n (rw n (entry_or_default-new es (rw n at h)))
  ]

  entry_or_default-other :
      (es : List (Bytes × NameEntry)) (x : Bytes)
      → equal key x ≡ false
      → lookup_key (entry_or_default key f es) x ≡ lookup_key es x
  unfolding entry_or_default lookup_key
  entry_or_default-other [] x d = rw d refl
  entry_or_default-other ((k, v) ∷ es) x d = elim (Bool-cases (equal k key)) [
    | inl y ↦
        let k_x : equal k x ≡ false = ap (λ z. equal z x) (equal→path k key y) ∙ d in
        rw y (rw k_x refl)
    | inr n ↦ elim (Bool-cases (equal k x)) [
      | inl k_x ↦ rw n (rw k_x refl)
      | inr k_x ↦ rw n (rw k_x (entry_or_default-other es x d))
    ]
  ]

plain_start : (x : ℕ) (bs : Bytes) → (x == b'*') ≡ false → strip_star (x ∷ bs) ≡ none
unfolding strip_star
plain_start x [] h = refl
plain_start x (y ∷ bs) h = rw h refl

not_star : (x : ℕ) (bs : Bytes) → (x == b'*') ≡ false → equal (x ∷ bs) (b'*' ∷ []) ≡ false
not_star x bs h = rw h refl

label_byte : (b : ℕ) → IsLabelByte b → (b == b'*') ≡ false
label_byte b h = ground (arith, h)

text-plain :
    (ls : List Bytes)
    → All IsLabel ls
    → (strip_star (text ls) ≡ none) × (equal (text ls) (b'*' ∷ []) ≡ false)
text-plain [] h = (plain_start b'.' [] refl, not_star b'.' [] refl)
text-plain ([] ∷ ls) h = absurd (omega (arith, h.0.lower))
text-plain ((x ∷ xs) ∷ ls) h =
    let plain = label_byte x h.0.bytes.0 in (plain_start x _ plain, not_star x _ plain)

abbrev pub type_of : RecordData → Qtype
type_of (RecordData.a addr) = Qtype.a
type_of (RecordData.aaaa addr) = Qtype.aaaa

resolve-fill_entry :
    (d : RecordData) (ttl : ℕ) (e : NameEntry)
    → resolve (fill_entry d ttl e) (type_of d) ≡ answer d ttl
unfolding resolve fill_entry
resolve-fill_entry (RecordData.a addr) ttl e = refl
resolve-fill_entry (RecordData.aaaa addr) ttl e = refl

fill_entry-others :
    (d : RecordData) (ttl : ℕ) (e : NameEntry) (q : Qtype)
    → ¬ (q ≡ type_of d)
    → resolve (fill_entry d ttl e) q ≡ resolve e q
unfolding resolve fill_entry
fill_entry-others (RecordData.a addr) ttl e Qtype.a d = absurd (d refl)
fill_entry-others (RecordData.a addr) ttl e Qtype.aaaa d = refl
fill_entry-others (RecordData.a addr) ttl e Qtype.ptr d = refl
fill_entry-others (RecordData.a addr) ttl e (Qtype.other v) d = refl
fill_entry-others (RecordData.aaaa addr) ttl e Qtype.a d = refl
fill_entry-others (RecordData.aaaa addr) ttl e Qtype.aaaa d = absurd (d refl)
fill_entry-others (RecordData.aaaa addr) ttl e Qtype.ptr d = refl
fill_entry-others (RecordData.aaaa addr) ttl e (Qtype.other v) d = refl

resolve-no_data : (q : Qtype) → resolve no_data q ≡ name_exists_no_data
unfolding resolve
resolve-no_data Qtype.a = refl
resolve-no_data Qtype.aaaa = refl
resolve-no_data Qtype.ptr = refl
resolve-no_data (Qtype.other v) = refl

-- The lookups behind the adding of a record to an exact name, next to the lookups before it.
pub record IsAdded (n : Name) (d : RecordData) (ttl : ℕ) (b : LocalRecordsBuilder) : Type 0 where
  pub new : LocalRecordsBuilder
  pub found : add n.inner d ttl b ≡ ok new
  pub own : lookup (build_records new) n (type_of d) ≡ answer d ttl
  pub kept :
      (e : NameEntry) (q : Qtype)
      → lookup_key b.exact n.inner ≡ some e
      → ¬ (q ≡ type_of d)
      → lookup (build_records new) n q ≡ lookup (build_records b) n q
  pub shadowed :
      (q : Qtype)
      → lookup_key b.exact n.inner ≡ none
      → ¬ (q ≡ type_of d)
      → lookup (build_records new) n q ≡ name_exists_no_data
  pub others :
      (x : Name) (q : Qtype)
      → equal n.inner x.inner ≡ false
      → lookup (build_records new) x q ≡ lookup (build_records b) x q

module _ (n : Name) (d : RecordData) (ttl : ℕ) (b : LocalRecordsBuilder) where
  abbrev added : LocalRecordsBuilder
  added = record b { exact = entry_or_default n.inner (fill_entry d ttl) b.exact }

  lookup-added :
      (e : NameEntry) (q : Qtype)
      → lookup_key added.exact n.inner ≡ some e
      → lookup (build_records added) n q ≡ resolve e q
  unfolding lookup build_records
  lookup-added e q h = rw (h, lookup) refl

  lookup-added-others :
      (x : Name) (q : Qtype)
      → equal n.inner x.inner ≡ false
      → lookup (build_records added) x q ≡ lookup (build_records b) x q
  unfolding lookup build_records
  lookup-added-others x q h =
      rw (entry_or_default-other n.inner (fill_entry d ttl) b.exact x.inner h, lookup) refl

  lookup-exact :
      (e : NameEntry) (q : Qtype)
      → lookup_key b.exact n.inner ≡ some e
      → lookup (build_records b) n q ≡ resolve e q
  unfolding lookup build_records
  lookup-exact e q h = rw (h, lookup) refl

  add-added : IsValid n → add n.inner d ttl b ≡ ok added
  unfolding add
  add-added v =
      let plain = text-plain v.labels v.are_labels in
      let no_wildcard : strip_star n.inner ≡ none = ap strip_star v.is_text ∙ plain.0 in
      let no_star : equal n.inner (b'*' ∷ []) ≡ false =
        ap (λ s. equal s (b'*' ∷ [])) v.is_text ∙ plain.1 in
      rw (no_wildcard, add, no_star, from_str-inner n v) refl

  added-here :
      ((e : NameEntry) × ((lookup_key b.exact n.inner ≡ some e)
          × (lookup_key added.exact n.inner ≡ some (fill_entry d ttl e))))
      ⊎ ((lookup_key b.exact n.inner ≡ none)
          × (lookup_key added.exact n.inner ≡ some (fill_entry d ttl no_data)))
  added-here = elim (Option-cases (lookup_key b.exact n.inner)) [
    | inr (e, h) ↦ inl (e, (h, entry_or_default-here n.inner (fill_entry d ttl) b.exact e h))
    | inl h ↦ inr (h, entry_or_default-new n.inner (fill_entry d ttl) b.exact h)
  ]

  -- Adding a record to a valid exact name succeeds. A query for that name and the record's type is then
  -- answered with the record; every other type keeps its answer, when the name had an entry before, and
  -- is otherwise no data for an existing name, whatever the wildcards say; the lookups of all other names
  -- are as before.
  pub add-IsAdded : IsValid n → IsAdded n d ttl b
  add-IsAdded v = elim added-here [
    | inl (e, (old, now)) ↦ record {
      new = added;
      found = add-added v;
      own = lookup-added _ (type_of d) now ∙ resolve-fill_entry d ttl e;
      kept = λ _ q h other.
          lookup-added _ q now ∙ (fill_entry-others d ttl e q other ∙ sym (lookup-exact e q old));
      shadowed = λ q h other. absurd (cc (sym old ∙ h));
      others = lookup-added-others;
    }
    | inr (old, now) ↦ record {
      new = added;
      found = add-added v;
      own = lookup-added _ (type_of d) now ∙ resolve-fill_entry d ttl no_data;
      kept = λ e q h other. absurd (cc (sym old ∙ h));
      shadowed = λ q h other.
          lookup-added _ q now ∙ (fill_entry-others d ttl no_data q other ∙ resolve-no_data q);
      others = lookup-added-others;
    }
  ]
