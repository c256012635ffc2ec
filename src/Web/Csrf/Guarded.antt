-- ===== src/Web/Csrf/Guarded.antt =====
-- Which requests pass the guard of src/web/csrf.rs.
use sagittarius.Prelude.{
  ℕ, ◌≤◌, ◌≡◌, refl, sym, ap, ◌∙◌, ◌⊎◌, inl, inr, true, false, Option, none, some, ltb, arith,
  ltb→lt, ltb→le, Bool-cases, Option-cases, length,
}
use sagittarius.Codec.Reader.{Bytes}
use sagittarius.Storage.Sqlite.{Db}
use sagittarius.Web.Crypto.Equal.{ct_eq→path, ct_eq_refl}
use sagittarius.Web.Http.{Request, csrf_header, header_str}
use sagittarius.Web.Origin.{SessionCookieSecurePolicy, origin}
use sagittarius.Web.Auth.{SessionCookie, CurrentUser, from_headers, current_user}
use sagittarius.Web.Csrf.Foreign.{SameOrigin, NamesNone, origin_ok-SameOrigin, origin_ok-Foreign}
use sagittarius.Web.Csrf.{
  max_form_body, is_safe, is_public_form, origin_ok, Verdict, forbidden, next, Crates, csrf_token,
  verifies, body_token, check_body, check_token, guard,
}

module _ (c : Crates) where
  -- The token of the session, in the header or in a body of at most 64 KiB.
  pub data Presents (expected : Bytes) (req : Request) : Type 0 where
    in_header : header_str csrf_header req.headers ≡ some expected → Presents expected req
    in_body :
        (bytes : Bytes)
        → req.body ≡ some bytes
        → length bytes ≤ max_form_body
        → body_token c req.headers bytes ≡ some expected
        → Presents expected req

  verifies-eq :
      (expected : Bytes) (o : Option Bytes) → verifies c expected o ≡ true → o ≡ some expected
  verifies-eq expected none h = cc
  verifies-eq expected (some presented) h = ap some (sym (ct_eq→path expected presented h))

  -- What a request that the guard passes on has.
  pub data Passes (policy : SessionCookieSecurePolicy) (now : ℕ) (req : Request) (db : Db)
      : Type 0 where
    safe : is_safe req.method ≡ true → Passes policy now req db
    anonymous :
        (is_public_form req.path ≡ true) ⊎ (from_headers req.headers ≡ none)
        → SameOrigin policy req.headers
        → Passes policy now req db
    not_live :
        (cookie : SessionCookie)
        → from_headers req.headers ≡ some cookie
        → (current_user c.sha256 now req.headers db).0 ≡ none
        → SameOrigin policy req.headers ⊎ NamesNone req.headers
        → Passes policy now req db
    with_token :
        (cookie : SessionCookie) (user : CurrentUser)
        → from_headers req.headers ≡ some cookie
        → (current_user c.sha256 now req.headers db).0 ≡ some user
        → SameOrigin policy req.headers ⊎ NamesNone req.headers
        → Presents (csrf_token c cookie.id) req
        → Passes policy now req db

  -- Why the guard refuses a request.
  pub data Refuses (policy : SessionCookieSecurePolicy) (now : ℕ) (req : Request) (db : Db)
      : Type 0 where
    foreign_form :
        is_safe req.method ≡ false
        → (is_public_form req.path ≡ true) ⊎ (from_headers req.headers ≡ none)
        → (SameOrigin policy req.headers → ⊥)
        → Refuses policy now req db
    foreign_page :
        (cookie : SessionCookie)
        → is_safe req.method ≡ false
        → from_headers req.headers ≡ some cookie
        → (SameOrigin policy req.headers → ⊥)
        → (NamesNone req.headers → ⊥) ⊎ (origin policy req.headers ≡ none)
        → Refuses policy now req db
    without_token :
        (cookie : SessionCookie) (user : CurrentUser)
        → is_safe req.method ≡ false
        → from_headers req.headers ≡ some cookie
        → (current_user c.sha256 now req.headers db).0 ≡ some user
        → (Presents (csrf_token c cookie.id) req → ⊥)
        → Refuses policy now req db

  -- A request is refused for a reason, or it goes on unchanged and has what it takes.
  abbrev pub Guarded : SessionCookieSecurePolicy → ℕ → Request → Db → Verdict → Type 0
  Guarded policy now req db v =
      ((v ≡ forbidden) × Refuses policy now req db) ⊎ ((v ≡ next req) × Passes policy now req db)

  refused :
      (expected : Bytes) (o : Option Bytes) → verifies c expected o ≡ false → o ≡ some expected → ⊥
  refused expected o bad e = cc (sym bad ∙ (ap (verifies c expected) e ∙ ct_eq_refl expected))

  -- The token of a body.
  abbrev InBody : Bytes → Request → Type 0
  InBody expected req =
      (bytes : Bytes) × (req.body ≡ some bytes)
      × (length bytes ≤ max_form_body)
      × (body_token c req.headers bytes ≡ some expected)

  absent :
      (expected : Bytes) (req : Request)
      → verifies c expected (header_str csrf_header req.headers) ≡ false
      → (InBody expected req → ⊥)
      → Presents expected req
      → ⊥
  absent expected req bad none_there (in_header e) = refused expected _ bad e
  absent expected req bad none_there (in_body bytes e fits t) = none_there (bytes, e, fits, t)

  check_body-Presents :
      (expected : Bytes) (req : Request) (body : Option Bytes)
      → req.body ≡ body
      → ((check_body c expected req body ≡ forbidden) × (InBody expected req → ⊥))
        ⊎ ((check_body c expected req body ≡ next req) × Presents expected req)
  unfolding check_body
  check_body-Presents expected req none e =
      inl (refl, λ (bytes, there, fits, t). cc (sym e ∙ there))
  check_body-Presents expected req (some bytes) e =
      elim (Bool-cases (ltb max_form_body (length bytes))) [
        | inl long ↦ inl (
          rw long refl,
          λ (others, there, fits, t).
              let same : bytes ≡ others = cc (sym e ∙ there) in
              omega (arith, ltb→lt max_form_body (length bytes) long, fits, ap length same),
        )
        | inr fits ↦ elim (Bool-cases (verifies c expected (body_token c req.headers bytes))) [
          | inr bad ↦ inl (
            rw (fits, bad) refl,
            λ (others, there, small, t).
                let same : bytes ≡ others = cc (sym e ∙ there) in
                refused expected _ bad (ap (body_token c req.headers) same ∙ t),
          )
          | inl good ↦ inr (
            rw (fits, good) (ap (λ (b : Option Bytes). next (record req { body = b })) (sym e)),
            in_body bytes e (ltb→le max_form_body (length bytes) fits)
                (verifies-eq expected _ good),
          )
        ]
      ]

  check_token-Guarded :
      (policy : SessionCookieSecurePolicy) (now : ℕ) (cookie : SessionCookie) (req : Request)
      (db : Db)
      → is_safe req.method ≡ false
      → from_headers req.headers ≡ some cookie
      → SameOrigin policy req.headers ⊎ NamesNone req.headers
      → Guarded policy now req db (check_token c now cookie req db).0
  unfolding check_token
  check_token-Guarded policy now cookie req db changes here from =
      elim (Option-cases (current_user c.sha256 now req.headers db).0) [
        | inl e ↦ rw (e, check_token) (inr (refl, not_live cookie here e from))
        | inr (user, e) ↦
            elim (Bool-cases
              (verifies c (csrf_token c cookie.id) (header_str csrf_header req.headers))) [
                | inl good ↦
                    rw (e, check_token, good)
                      (inr (
                        refl,
                        with_token cookie user here e from (in_header (verifies-eq _ _ good)),
                      ))
                | inr bad ↦
                    rw (e, check_token, bad)
                      (elim (check_body-Presents (csrf_token c cookie.id) req req.body refl) [
                        | inl (no_token, none_there) ↦ inl (
                          no_token,
                          without_token cookie user changes here e (absent _ req bad none_there),
                        )
                        | inr (same, presents) ↦
                            inr (same, with_token cookie user here e from presents)
                      ])
              ]
      ]

  -- The guard refuses a request, or passes it on unchanged, body included. It passes a request on only if
  -- its method is safe; or it is a login or setup form or has no session cookie, and names the program's
  -- own origin; or its session is not live; or its session is live and it presents exactly the token of
  -- that session, in the header or in a body of at most 64 KiB. Unless the method is safe, an Origin or
  -- Referer that is there names the program's own origin: it is that origin, or a referer on a path of it.
  -- It refuses only a request whose method is not safe, and only if that does not name the own origin,
  -- though it has no session to go by, or names another, or the origin is unknown; or if its session is
  -- live and it does not present the token.
  pub guard-Guarded :
      (policy : SessionCookieSecurePolicy) (now : ℕ) (req : Request) (db : Db)
      → Guarded policy now req db (guard c policy now req db).0
  unfolding guard
  guard-Guarded policy now req db = elim (Bool-cases (is_safe req.method)) [
    | inl ok_method ↦ rw ok_method (inr (refl, safe ok_method))
    | inr changes ↦ elim (Option-cases (from_headers req.headers)) [
      | inl e ↦ elim (Bool-cases (origin_ok policy req.headers true)) [
        | inr bad ↦
            rw (changes, guard, e, bad)
              (inl (
                refl,
                foreign_form changes (inr e) (origin_ok-Foreign policy req.headers true bad).0,
              ))
        | inl good ↦
            rw (changes, guard, e, good)
              (inr (
                refl,
                anonymous (inr e) (elim (origin_ok-SameOrigin policy req.headers true good) [
                  | inl same ↦ same
                  | inr (lax, h) ↦ absurd (cc lax)
                ]),
              ))
      ]
      | inr (cookie, e) ↦
          elim (Bool-cases (origin_ok policy req.headers (is_public_form req.path))) [
            | inr bad ↦
                let (other, why) =
                  origin_ok-Foreign policy req.headers (is_public_form req.path) bad in
                rw (changes, guard, e, bad)
                  (inl (
                    refl,
                    elim why [
                      | inl form ↦ foreign_form changes (inl form) other
                      | inr reason ↦ foreign_page cookie changes e other reason
                    ],
                  ))
            | inl good ↦ elim (Bool-cases (is_public_form req.path)) [
              | inl form ↦
                  rw (changes, guard, e, good, form)
                    (inr (
                      refl,
                      anonymous (inl form)
                          (elim (origin_ok-SameOrigin policy req.headers (is_public_form req.path)
                            good) [
                              | inl same ↦ same
                              | inr (lax, h) ↦ absurd (cc (sym form ∙ lax))
                            ]),
                    ))
              | inr page ↦
                  rw (changes, guard, e, good, page)
                    (check_token-Guarded policy now cookie req db changes e
                      (elim (origin_ok-SameOrigin policy req.headers (is_public_form req.path)
                        good) [ inl same ↦ inl same | inr (lax, h) ↦ inr h ]))
            ]
          ]
    ]
  ]
