-- ===== src/Codec/Name/Skip/Bounds.antt =====
-- Where `Name::skip_rr` (src/codec/name.rs) leaves the cursor, whatever the message holds.
use sagittarius.Prelude.{ℕ, zero, suc, ◌+◌, ◌≤◌, ◌≡◌, refl, ap, ◌∙◌, true, false, arith, length}
use sagittarius.Codec.Error.{ok, >>=-eq-ok, ok-injective}
use sagittarius.Codec.Reader.{Bytes, Reader, read_slice}
use sagittarius.Codec.Name.Skip.{
  SkipState, Flow, return, continue, sync_reader, skip_round, go_on, skip_loop, start, skip_fuel,
  skip_rr,
}

-- The cursor of the reader, in a skip of `msg` that began at `origin`: it follows the loop's own
-- position up to the first pointer, and then stays behind that pointer.
pub record IsSynced (msg : Bytes) (origin : ℕ) (s : SkipState) : Type 0 where
  pub same : s.reader.buf ≡ msg
  pub inside : s.reader.pos ≤ length msg
  pub begun : origin ≤ s.reader.pos
  pub moved : s.fixed_reader ≡ true → origin + 1 ≤ s.reader.pos
  pub follows : s.fixed_reader ≡ false → s.cur_pos ≡ s.reader.pos

-- A cursor behind a name that began at `origin`.
pub record IsBehind (msg : Bytes) (origin : ℕ) (r : Reader) : Type 0 where
  pub same : r.buf ≡ msg
  pub moved : origin + 1 ≤ r.pos
  pub inside : r.pos ≤ length msg

skip_round-IsSynced :
    (msg : Bytes) (origin : ℕ) (s s' : SkipState)
    → IsSynced msg origin s
    → skip_round msg s ≡ ok (continue s')
    → IsSynced msg origin s'
unfolding skip_round sync_reader read_slice
skip_round-IsSynced msg origin s s' v h = ground arith

skip_round-IsBehind :
    (msg : Bytes) (origin : ℕ) (s : SkipState) (r : Reader)
    → IsSynced msg origin s
    → skip_round msg s ≡ ok (return r)
    → IsBehind msg origin r
unfolding skip_round sync_reader read_slice
skip_round-IsBehind msg origin s r v h = ground arith

skip_loop-IsBehind :
    (fuel : ℕ) (msg : Bytes) (origin : ℕ) (s : SkipState) {r : Reader}
    → IsSynced msg origin s
    → skip_loop fuel msg s ≡ ok r
    → IsBehind msg origin r
unfolding skip_loop
skip_loop-IsBehind zero msg origin s v h = cc
skip_loop-IsBehind (suc fuel) msg origin s {r} v h =
    let (flow, e, k) = >>=-eq-ok (skip_round msg s) _ h in
    go flow e k (λ s' v' h'. skip_loop-IsBehind fuel msg origin s' v' h')
  where
    go :
        (flow : Flow)
        → skip_round msg s ≡ ok flow
        → go_on (skip_loop fuel msg) flow ≡ ok r
        → ((s' : SkipState)
            → IsSynced msg origin s'
            → skip_loop fuel msg s' ≡ ok r
            → IsBehind msg origin r)
        → IsBehind msg origin r
    go (return q) e k next =
        skip_round-IsBehind msg origin s r v
          (e ∙ ap (λ (x : Reader). ok (return x)) (ok-injective k))
    go (continue s') e k next = next s' (skip_round-IsSynced msg origin s s' v e) k

-- A skip that succeeds moves the cursor forward, and leaves it inside the same message.
pub skip_rr-IsBehind :
    (r : Reader) {r' : Reader} → r.pos ≤ length r.buf → skip_rr r ≡ ok r' → IsBehind r.buf r.pos r'
unfolding skip_rr
skip_rr-IsBehind r h e =
    skip_loop-IsBehind skip_fuel r.buf r.pos (start r)
      (record {
        same = refl;
        inside = h;
        begun = omega arith;
        moved = λ f. cc;
        follows = λ _. refl;
      })
      e
