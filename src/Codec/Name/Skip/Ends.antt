-- ===== src/Codec/Name/Skip/Ends.antt =====
-- The loop of `Name::skip_rr` (src/codec/name.rs) ends on every message, also on one whose pointers
-- form a cycle: every round but the last uses up a hop or a label octet.
use sagittarius.Prelude.{
  ℕ, zero, suc, ◌+◌, ◌-◌, ◌<◌, ◌≡◌, inl, inr, Bool, true, false, arith, Option-cases, get_elem?,
}
use sagittarius.Codec.Error.{ok, Returns, with_value, >>=-Returns, returns}
use sagittarius.Codec.Reader.{Bytes, Reader}
use sagittarius.Codec.Reader.Laws.{read_slice-Returns}
use sagittarius.Codec.Name.Skip.{
  SkipState, Flow, return, continue, octet_at, sync_reader, skip_round, go_on, skip_loop, start,
  skip_fuel, skip_rr,
}

octet_at-Returns : (msg : Bytes) (p : ℕ) → Returns (octet_at msg p)
unfolding octet_at
octet_at-Returns msg p = elim (Option-cases (get_elem? msg p)) [
  | inl e ↦ rw (e, octet_at) (search returns)
  | inr (b, e) ↦ rw (e, octet_at) (search returns)
]

sync_reader-Returns : (f : Bool) (r : Reader) (n : ℕ) → Returns (sync_reader f r n)
unfolding sync_reader
sync_reader-Returns true r n = with_value r
sync_reader-Returns false r n = search (returns, read_slice-Returns)

skip_round-Returns : (msg : Bytes) (s : SkipState) → Returns (skip_round msg s)
unfolding skip_round
skip_round-Returns msg s = search (returns, octet_at-Returns, sync_reader-Returns) depth 12

-- What the limits still allow.
abbrev budget : SkipState → ℕ
budget s = (16 - s.hops) + (255 - s.total_label_bytes)

skip_round-budget :
    (msg : Bytes) (s s' : SkipState) → skip_round msg s ≡ ok (continue s') → budget s' < budget s
unfolding skip_round
skip_round-budget msg s s' h = ground arith

skip_loop-Returns :
    (fuel : ℕ) (msg : Bytes) (s : SkipState) → budget s < fuel → Returns (skip_loop fuel msg s)
unfolding skip_loop
skip_loop-Returns zero msg s h = absurd (omega arith)
skip_loop-Returns (suc fuel) msg s h =
    >>=-Returns (skip_round msg s) _ (skip_round-Returns msg s)
      (λ flow e. go flow e (λ s' h'. skip_loop-Returns fuel msg s' h'))
  where
    go :
        (flow : Flow)
        → skip_round msg s ≡ ok flow
        → ((s' : SkipState) → budget s' < fuel → Returns (skip_loop fuel msg s'))
        → Returns (go_on (skip_loop fuel msg) flow)
    go (return r) e next = with_value r
    go (continue s') e next = next s' (omega (arith, skip_round-budget msg s s' e))

-- `skip_rr` never runs out of fuel: 272 rounds are enough for every message and cursor.
pub skip_rr-Returns : (r : Reader) → Returns (skip_rr r)
unfolding skip_rr
skip_rr-Returns r = skip_loop-Returns skip_fuel r.buf (start r) (omega arith)
