-- ===== src/Blocklist/Fetch.antt =====
-- The download of a source, src/blocklist/fetch.rs. The request that reqwest sends is the parameter
-- `send`; a response's body is the list of what the reads of its chunks return.
pub mod Bounded
use sagittarius.Prelude.{
  ℕ, ◌-◌, ◌*◌, Bool, Option, List, [], ◌∷◌, ◌++◌, ltb, ◌==◌, if◌then◌else◌, length,
}
use sagittarius.Codec.Error.{Result, ok, err, out_of_fuel}
use sagittarius.Codec.Reader.{Bytes}
use sagittarius.Blocklist.Parse.{Text}

abbrev pub default_max_size : ℕ
default_max_size = 64 * 1024 * 1024

pub record Validators : Type 0 where
  pub etag : Option Text
  pub last_modified : Option Text

pub data FetchOutcome : Type 0 where
  modified : Bytes → Validators → FetchOutcome
  not_modified : FetchOutcome

-- `FetchError`; a `reqwest::Error` is a number.
pub data FetchError : Type 0 where
  request : ℕ → FetchError
  unexpected_status : ℕ → FetchError
  body_too_large : ℕ → FetchError
  timeout : FetchError

pub record Fetcher : Type 0 where
  pub max_size : ℕ

-- `Fetcher::new` and `Fetcher::with_max_size`
abbrev pub new_fetcher : Fetcher
new_fetcher = record { max_size = default_max_size }

abbrev pub with_max_size : ℕ → Fetcher → Fetcher
with_max_size max_size fetcher = record fetcher { max_size = max_size }

-- What the code reads of a `reqwest::Response`; a header that is no text counts as missing.
pub record Response : Type 0 where
  pub status : ℕ
  pub etag : Option Text
  pub last_modified : Option Text
  pub chunks : List (Result ℕ Bytes)

-- The loop over the chunks, in `Fetcher::fetch`.
unfoldable pub read_body : ℕ → Bytes → List (Result ℕ Bytes) → Result FetchError Bytes
read_body max_size accumulated [] = ok accumulated
read_body max_size accumulated (ok chunk ∷ chunks) =
    let rest = read_body max_size (accumulated ++ chunk) chunks in
    if ltb (max_size - length accumulated) (length chunk)
    then err (body_too_large max_size)
    else rest
read_body max_size accumulated (err e ∷ chunks) = err (request e)
read_body max_size accumulated (out_of_fuel ∷ chunks) = out_of_fuel

-- A request that failed, and whether `is_timeout()` holds.
unfoldable pub send_error : ℕ × Bool → FetchError
send_error (e, is_timeout) = if is_timeout then timeout else request e

-- `match response.status()`, in `Fetcher::fetch`.
unfoldable pub take_response : ℕ → Response → Result FetchError FetchOutcome
unfolding read_body
take_response max_size response =
    if response.status == 304
    then ok not_modified
    else if response.status == 200
    then (elim (read_body max_size [] response.chunks) [
      | ok body ↦
          ok (
            modified body (record { etag = response.etag; last_modified = response.last_modified }))
      | err e ↦ err e
      | out_of_fuel ↦ out_of_fuel
    ])
    else err (unexpected_status response.status)

module _ {N : Type 0} (send : Text → Validators → N → Result (ℕ × Bool) Response × N) where
  -- `Fetcher::fetch`; the request carries the validators as its conditional headers.
  unfoldable pub fetch : Fetcher → Text → Validators → N → Result FetchError FetchOutcome × N
  unfolding take_response send_error
  fetch fetcher url validators net =
      let (sent, net') = send url validators net in
      (
        elim sent [
          | ok response ↦ take_response fetcher.max_size response
          | err e ↦ err (send_error e)
          | out_of_fuel ↦ out_of_fuel
        ],
        net',
      )
