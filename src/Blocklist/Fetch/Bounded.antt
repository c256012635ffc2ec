-- ===== src/Blocklist/Fetch/Bounded.antt =====
-- The size of a body that src/blocklist/fetch.rs accepts.
use sagittarius.Prelude.{
  ℕ, ◌-◌, ◌≤◌, ◌≡◌, refl, sym, ap, ◌∙◌, subst, ◌↔◌, inl, inr, Bool, false, List, [], ◌∷◌, ◌++◌, map,
  append_assoc, append-nil, arith, ltb, ◌==◌, le→ltb, ltb→le, ==_iff, Bool-cases, length,
  length-append,
}
use sagittarius.Codec.Error.{Result, ok, err, out_of_fuel}
use sagittarius.Codec.Reader.{Bytes}
use sagittarius.Blocklist.Parse.{Text}
use sagittarius.Blocklist.Fetch.{
  Validators, Fetcher, FetchOutcome, FetchError, Response, modified, read_body, take_response,
  fetch, send_error,
}

-- The octets of chunks, one after the other.
abbrev pub joined : List Bytes → Bytes
joined [] = []
joined (chunk ∷ chunks) = chunk ++ joined chunks

-- A body whose chunks can all be read, without an error before its end, is these octets, within a size.
abbrev pub IsBody : ℕ → List (Result ℕ Bytes) → Bytes → Type 0
IsBody max_size reads body =
    (chunks : List Bytes) × (reads ≡ map ok chunks)
    × (body ≡ joined chunks)
    × (length body ≤ max_size)

read_body-joined :
    (max_size : ℕ) (accumulated : Bytes) (reads : List (Result ℕ Bytes)) {body : Bytes}
    → length accumulated ≤ max_size
    → read_body max_size accumulated reads ≡ ok body
    → (chunks : List Bytes) × (reads ≡ map ok chunks)
      × (body ≡ accumulated ++ joined chunks)
      × (length body ≤ max_size)
unfolding read_body
read_body-joined max_size accumulated [] {body} h e =
    let same : accumulated ≡ body = cc e in
    (
      [],
      refl,
      sym same ∙ sym (append-nil accumulated),
      subst (λ (b : Bytes). length b ≤ max_size) same h,
    )
read_body-joined max_size accumulated (err x ∷ reads) h e = cc
read_body-joined max_size accumulated (out_of_fuel ∷ reads) h e = cc
read_body-joined max_size accumulated (ok chunk ∷ reads) h e =
    elim (Bool-cases (ltb (max_size - length accumulated) (length chunk))) [
      | inl long ↦ absurd (cc (rw long at e))
      | inr fits ↦
          let room = ltb→le (max_size - length accumulated) (length chunk) fits in
          let (chunks, all, same, small) =
            read_body-joined max_size (accumulated ++ chunk) reads
              (omega (arith, h, room, length-append accumulated chunk)) (rw fits at e) in
          (
            chunk ∷ chunks,
            ap (◌∷◌ (ok chunk)) all,
            same ∙ append_assoc accumulated chunk (joined chunks),
            small,
          )
    ]

read_body-map :
    (max_size : ℕ) (accumulated : Bytes) (chunks : List Bytes)
    → length (accumulated ++ joined chunks) ≤ max_size
    → read_body max_size accumulated (map ok chunks) ≡ ok (accumulated ++ joined chunks)
unfolding read_body
read_body-map max_size accumulated [] h = ap ok (sym (append-nil accumulated))
read_body-map max_size accumulated (chunk ∷ chunks) h =
    let whole = length-append accumulated (chunk ++ joined chunks) in
    let part = length-append chunk (joined chunks) in
    let fits : ltb (max_size - length accumulated) (length chunk) ≡ false =
      le→ltb (max_size - length accumulated) (length chunk) (omega (arith, h, whole, part)) in
    let split = append_assoc accumulated chunk (joined chunks) in
    rw fits (
      read_body-map max_size (accumulated ++ chunk) chunks
        (subst (λ (b : Bytes). length b ≤ max_size) (sym split) h)
      ∙ ap ok split)

-- The validators of a response.
abbrev pub validators_in : Response → Validators
validators_in response = record { etag = response.etag; last_modified = response.last_modified }

abbrev outcome_of : Response → Result FetchError Bytes → Result FetchError FetchOutcome
outcome_of response (ok body) = ok (modified body (validators_in response))
outcome_of response (err e) = err e
outcome_of response out_of_fuel = out_of_fuel

-- A response that is a body: its status is 200, and all of it was read.
abbrev pub IsModified : ℕ → Response → Bytes → Validators → Type 0
IsModified max_size response body validators =
    (response.status ≡ 200)
    × IsBody max_size response.chunks body
    × (validators ≡ validators_in response)

take_response-IsModified :
    (max_size : ℕ) (response : Response) {body : Bytes} {validators : Validators}
    → take_response max_size response ≡ ok (modified body validators)
    → IsModified max_size response body validators
unfolding take_response
take_response-IsModified max_size response {body} {validators} h =
    elim (Bool-cases (response.status == 304)) [
      | inl e ↦ absurd (cc (rw e at h))
      | inr e ↦ elim (Bool-cases (response.status == 200)) [
        | inr f ↦ absurd (cc (rw (e, f) at h))
        | inl f ↦
            read (read_body max_size [] response.chunks) refl (rw (e, f) at h)
              ((==_iff response.status 200).0 f)
      ]
    ]
  where
    read :
        (r : Result FetchError Bytes)
        → read_body max_size [] response.chunks ≡ r
        → outcome_of response r ≡ ok (modified body validators)
        → response.status ≡ 200
        → IsModified max_size response body validators
    read (err x) e h s = cc
    read out_of_fuel e h s = cc
    read (ok b) e h s =
        let same : b ≡ body = cc h in
        let (chunks, all, content, small) =
          read_body-joined max_size [] response.chunks (omega arith) e in
        (
          s,
          (chunks, all, sym same ∙ content, subst (λ (x : Bytes). length x ≤ max_size) same small),
          cc h,
        )

IsModified-take_response :
    (max_size : ℕ) (response : Response) {body : Bytes} {validators : Validators}
    → IsModified max_size response body validators
    → take_response max_size response ≡ ok (modified body validators)
unfolding take_response
IsModified-take_response max_size response {body} {validators}
      (s, (chunks, all, content, small), v) =
    let read : read_body max_size [] response.chunks ≡ ok body =
      ap (read_body max_size []) all
      ∙ (read_body-map max_size [] chunks (subst (λ (b : Bytes). length b ≤ max_size) content small)
          ∙ ap ok (sym content)) in
    rw (s, read) (ap (λ w. ok (modified body w)) (sym v))

-- The fetcher hands on a body with validators if, and only if, the request is answered with the status
-- 200, every chunk of the response is read, the body is the octets of these chunks, at most `max_size` of
-- them, and the validators are those of the response. So a body that breaks off in an error, or that is
-- too large, is not handed on, and each other body is.
pub fetch-joined :
    {N : Type 0} (send : Text → Validators → N → Result (ℕ × Bool) Response × N) (fetcher : Fetcher)
    (url : Text) (validators : Validators) (net : N) (body : Bytes) (validators' : Validators)
    → ((fetch send fetcher url validators net).0 ≡ ok (modified body validators')) ↔ (
        (response : Response) × ((send url validators net).0 ≡ ok response)
        × IsModified fetcher.max_size response body validators')
unfolding fetch
fetch-joined send fetcher url validators net body validators' = (
  go (send url validators net).0 refl,
  λ (response, s, m). rw s (IsModified-take_response fetcher.max_size response m),
)
  where
    go :
        (sent : Result (ℕ × Bool) Response)
        → (send url validators net).0 ≡ sent
        → (elim sent [
          | ok response ↦ take_response fetcher.max_size response
          | err e ↦ err (send_error e)
          | out_of_fuel ↦ out_of_fuel
        ])
          ≡ ok (modified body validators')
        → (response : Response) × ((send url validators net).0 ≡ ok response)
          × IsModified fetcher.max_size response body validators'
    go (err e) s k = cc
    go out_of_fuel s k = cc
    go (ok response) s k = (response, s, take_response-IsModified fetcher.max_size response k)
