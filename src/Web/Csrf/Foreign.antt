-- ===== src/Web/Csrf/Foreign.antt =====
-- The check of the origin in src/web/csrf.rs: which requests it accepts, and which it refuses.
use sagittarius.Prelude.{
  ℕ, ◌≡◌, refl, sym, ap, ap₂, ◌∙◌, ◌⊎◌, inl, inr, Bool, true, false, not, none, some, [], ◌∷◌, ◌++◌,
  ◌==◌, equal, equal→path, equal_refl, arith, ==_iff, Bool-cases, Option-cases,
}
use sagittarius.Codec.Reader.{Bytes}
use sagittarius.Web.Http.{Headers, origin_name, referer_name, header_str, strip_prefix}
use sagittarius.Web.Origin.{SessionCookieSecurePolicy, origin}
use sagittarius.Web.Csrf.{starts_with_slash, referer_ok, origin_ok}

strip_prefix-append :
    (prefix s : Bytes) {rest : Bytes} → strip_prefix prefix s ≡ some rest → s ≡ prefix ++ rest
unfolding strip_prefix
strip_prefix-append [] s h = cc
strip_prefix-append (p ∷ prefix) [] h = cc
strip_prefix-append (p ∷ prefix) (x ∷ s) h = elim (Bool-cases (p == x)) [
  | inl e ↦ ap₂ ◌∷◌ (sym ((==_iff p x).0 e)) (strip_prefix-append prefix s (rw e at h))
  | inr e ↦ absurd (cc (rw e at h))
]

-- A referer on an origin: the origin itself, or a path on it.
abbrev pub IsOn : Bytes → Bytes → Type 0
IsOn expected r = (r ≡ expected) ⊎ ((rest : Bytes) × (r ≡ expected ++ (b'/' ∷ rest)))

starts_with_slash-path :
    (s : Bytes) → starts_with_slash s ≡ true → (rest : Bytes) × (s ≡ b'/' ∷ rest)
starts_with_slash-path [] h = cc
starts_with_slash-path (x ∷ rest) h = (rest, ap (λ (n : ℕ). n ∷ rest) ((==_iff x b'/').0 h))

referer_ok-IsOn : (expected r : Bytes) → referer_ok expected r ≡ true → IsOn expected r
unfolding referer_ok
referer_ok-IsOn expected r h = elim (Bool-cases (equal r expected)) [
  | inl e ↦ inl (equal→path r expected e)
  | inr e ↦ elim (Option-cases (strip_prefix expected r)) [
    | inl none_left ↦ absurd (cc (rw (e, none_left) at h))
    | inr (rest, left) ↦
        let (path, slash) = starts_with_slash-path rest (rw (e, left) at h) in
        inr (path, strip_prefix-append expected r left ∙ ap (λ (t : Bytes). expected ++ t) slash)
  ]
]

-- A request that names the program's own origin, and one that names none.
pub data SameOrigin (policy : SessionCookieSecurePolicy) (headers : Headers) : Type 0 where
  by_origin :
      (expected : Bytes)
      → origin policy headers ≡ some expected
      → header_str origin_name headers ≡ some expected
      → SameOrigin policy headers
  by_referer :
      (expected r : Bytes)
      → origin policy headers ≡ some expected
      → header_str origin_name headers ≡ none
      → header_str referer_name headers ≡ some r
      → IsOn expected r
      → SameOrigin policy headers

abbrev pub NamesNone : Headers → Type 0
NamesNone headers =
    (header_str origin_name headers ≡ none) × (header_str referer_name headers ≡ none)

pub origin_ok-SameOrigin :
    (policy : SessionCookieSecurePolicy) (headers : Headers) (require_header : Bool)
    → origin_ok policy headers require_header ≡ true
    → SameOrigin policy headers ⊎ ((require_header ≡ false) × NamesNone headers)
unfolding origin_ok
origin_ok-SameOrigin policy headers require_header h = elim (Option-cases (origin policy headers)) [
  | inl e ↦ absurd (cc (rw (e, origin_ok) at h))
  | inr (expected, e) ↦ elim (Option-cases (header_str origin_name headers)) [
    | inr (o, f) ↦
        let same : equal o expected ≡ true = (rw (e, origin_ok, f) at h) in
        inl (by_origin expected e (f ∙ ap some (equal→path o expected same)))
    | inl f ↦ elim (Option-cases (header_str referer_name headers)) [
      | inr (r, g) ↦
          inl (
            by_referer expected r e f g (referer_ok-IsOn expected r (rw (e, origin_ok, f, g) at h)))
      | inl g ↦ inr (not-true require_header (rw (e, origin_ok, f, g) at h), (f, g))
    ]
  ]
]
  where
    not-true : (b : Bool) → not b ≡ true → b ≡ false
    not-true true h = cc
    not-true false h = refl

strip_prefix-back : (prefix rest : Bytes) → strip_prefix prefix (prefix ++ rest) ≡ some rest
unfolding strip_prefix
strip_prefix-back [] rest = refl
strip_prefix-back (p ∷ prefix) rest =
    let same : (p == p) ≡ true = ground arith in rw same (strip_prefix-back prefix rest)

IsOn-referer_ok : (expected r : Bytes) → IsOn expected r → referer_ok expected r ≡ true
unfolding referer_ok
IsOn-referer_ok expected r (inl e) =
    let same : equal r expected ≡ true = ap (equal r) (sym e) ∙ equal_refl r in rw same refl
IsOn-referer_ok expected r (inr (rest, e)) =
    let left : strip_prefix expected r ≡ some (b'/' ∷ rest) =
      ap (strip_prefix expected) e ∙ strip_prefix-back expected (b'/' ∷ rest) in
    elim (Bool-cases (equal r expected)) [ inl f ↦ rw f refl | inr f ↦ rw (f, left) refl ]

SameOrigin-origin_ok :
    (policy : SessionCookieSecurePolicy) (headers : Headers) (require_header : Bool)
    → SameOrigin policy headers
    → origin_ok policy headers require_header ≡ true
unfolding origin_ok
SameOrigin-origin_ok policy headers require_header (by_origin expected e f) =
    rw (e, origin_ok, f) (equal_refl expected)
SameOrigin-origin_ok policy headers require_header (by_referer expected r e f g on) =
    rw (e, origin_ok, f, g) (IsOn-referer_ok expected r on)

NamesNone-origin_ok :
    (policy : SessionCookieSecurePolicy) (headers : Headers) {expected : Bytes}
    → origin policy headers ≡ some expected
    → NamesNone headers
    → origin_ok policy headers false ≡ true
unfolding origin_ok
NamesNone-origin_ok policy headers e h = rw (e, origin_ok, h.0, h.1) refl

-- A request that does not name the program's own origin, though it must, or names another; or the
-- program cannot tell its origin.
abbrev pub Foreign : SessionCookieSecurePolicy → Headers → Bool → Type 0
Foreign policy headers require_header =
    (SameOrigin policy headers → ⊥)
    × ((require_header ≡ true) ⊎ ((NamesNone headers → ⊥) ⊎ (origin policy headers ≡ none)))

pub origin_ok-Foreign :
    (policy : SessionCookieSecurePolicy) (headers : Headers) (require_header : Bool)
    → origin_ok policy headers require_header ≡ false
    → Foreign policy headers require_header
origin_ok-Foreign policy headers require_header h = (
  λ same. cc (sym h ∙ SameOrigin-origin_ok policy headers require_header same),
  elim (Bool-cases require_header) [
    | inl e ↦ inl e
    | inr lax ↦ inr (elim (Option-cases (origin policy headers)) [
      | inl unknown ↦ inr unknown
      | inr (expected, e) ↦ inl (λ names. cc (
          sym h ∙ (ap (origin_ok policy headers) lax ∙ NamesNone-origin_ok policy headers e names)))
    ])
  ],
)
