-- ===== src/Resolver/Pipeline/Listener/Stream.antt =====
-- The loop of `handle_connection` (src/resolver/pipeline/listener.rs) on a stream of framed messages.
use sagittarius.Prelude.{
  ℕ, zero, suc, ◌≤◌, ◌<◌, ◌≡◌, refl, ◌⊎◌, inl, inr, false, List, [], ◌∷◌, ◌++◌, arith, ltb, le→ltb,
  ltb→le, length, take, drop, All, length-append, length-drop, take-length_append,
  drop-length_append,
}
use sagittarius.Codec.Error.{ok, Returns, with_value, if-Returns, map-Returns}
use sagittarius.Codec.Reader.{Bytes, be_u16}
use sagittarius.Codec.Writer.{u16_bytes}
use sagittarius.Resolver.State.{SocketAddr}
use sagittarius.Resolver.Pipeline.{PipelineResponse, Service}
use sagittarius.Resolver.Pipeline.Listener.{Next, close, written, answer_message, handle_connection}

-- Messages behind their length prefixes.
abbrev pub framed_stream : List Bytes → Bytes
framed_stream [] = []
framed_stream (m ∷ ms) = u16_bytes (length m) ++ (m ++ framed_stream ms)

abbrev pub IsFrame : Bytes → Type 0
IsFrame m = length m ≤ 65535

Next-cases :
    {W : Type 0} (n : Next W)
    → ((w : W) × (n ≡ close w)) ⊎ ((framed : Bytes) × (w : W) × (n ≡ written framed w))
Next-cases (close w) = inl (w, refl)
Next-cases (written framed w) = inr (framed, w, refl)

module _ {W : Type 0} (service : Service W PipelineResponse) (peer : SocketAddr) where
  -- Message by message, each answered on the state that the one before left, until the connection is
  -- closed or a write fails.
  unfoldable pub answer_all : ℕ → List Bytes → W → List Bytes × W
  answer_all room [] w = ([], w)
  answer_all room (m ∷ ms) w = elim (answer_message service m peer w) [
    | close w' ↦ ([], w')
    | written framed w' ↦ elim room [
      | zero ↦ ([], w')
      | suc room' ↦ let (frames, w'') = answer_all room' ms w' in (framed ∷ frames, w'')
    ]
  ]

  -- The loop ends on every input: a round for each octet, and one more, are enough.
  pub handle_connection-Returns :
      (fuel room : ℕ) (input : Bytes) (w : W)
      → length input < fuel
      → Returns (handle_connection service fuel room peer input w)
  unfolding handle_connection
  handle_connection-Returns zero room input w h = absurd (omega arith)
  handle_connection-Returns (suc fuel) zero input w h =
      let msg_len = be_u16 (take 2 input) in
      let body = drop 2 input in
      if-Returns (ltb (length input) 2) _ _ (λ _. with_value _)
        (λ long.
          if-Returns (ltb (length body) msg_len) _ _ (λ _. with_value _)
            (λ fits. elim (Next-cases (answer_message service (take msg_len body) peer w)) [
              | inl (w', e) ↦ rw e (with_value _)
              | inr (framed, w', e) ↦ rw e (with_value _)
            ]))
  handle_connection-Returns (suc fuel) (suc room) input w h =
      let msg_len = be_u16 (take 2 input) in
      let body = drop 2 input in
      if-Returns (ltb (length input) 2) _ _ (λ _. with_value _)
        (λ long.
          if-Returns (ltb (length body) msg_len) _ _ (λ _. with_value _)
            (λ fits. elim (Next-cases (answer_message service (take msg_len body) peer w)) [
              | inl (w', e) ↦ rw e (with_value _)
              | inr (framed, w', e) ↦ rw e (
                  map-Returns (handle_connection service fuel room peer (drop msg_len body) w') _ (
                    handle_connection-Returns fuel room (drop msg_len body) w' (
                      omega (
                        arith,
                        h,
                        ltb→le (length input) 2 long,
                        length-drop msg_len body,
                        length-drop 2 input,
                      ))))
            ]))

  -- Messages of at most 65535 octets that follow one another on a connection, each behind its length,
  -- are answered one by one, on the state that the one before left, until the connection is closed
  -- or a write fails; a round for each octet, and one more, are enough.
  pub handle_connection-answer_all :
      (ms : List Bytes) (fuel room : ℕ) (w : W)
      → All IsFrame ms
      → length (framed_stream ms) < fuel
      → handle_connection service fuel room peer (framed_stream ms) w ≡ ok (answer_all room ms w)
  unfolding handle_connection answer_all
  handle_connection-answer_all ms zero room w h f = absurd (omega arith)
  handle_connection-answer_all [] (suc fuel) room w h f = refl
  handle_connection-answer_all (m ∷ ms) (suc fuel) zero w h f =
      let more = m ++ framed_stream ms in
      let size : be_u16 (u16_bytes (length m)) ≡ length m = omega (arith, h.0) in
      let long : ltb (length (framed_stream (m ∷ ms))) 2 ≡ false = le→ltb _ _ (omega arith) in
      let fits : ltb (length more) (length m) ≡ false =
        le→ltb _ _ (omega (arith, length-append m (framed_stream ms))) in
      let first : take (length m) more ≡ m = take-length_append m (framed_stream ms) in
      elim (Next-cases (answer_message service m peer w)) [
        | inl (w', e) ↦ rw (long, size, fits, first, e, answer_all) refl
        | inr (framed, w', e) ↦ rw (long, size, fits, first, e, answer_all) refl
      ]
  handle_connection-answer_all (m ∷ ms) (suc fuel) (suc room) w h f =
      let more = m ++ framed_stream ms in
      let size : be_u16 (u16_bytes (length m)) ≡ length m = omega (arith, h.0) in
      let long : ltb (length (framed_stream (m ∷ ms))) 2 ≡ false = le→ltb _ _ (omega arith) in
      let fits : ltb (length more) (length m) ≡ false =
        le→ltb _ _ (omega (arith, length-append m (framed_stream ms))) in
      let first : take (length m) more ≡ m = take-length_append m (framed_stream ms) in
      elim (Next-cases (answer_message service m peer w)) [
        | inl (w', e) ↦ rw (long, size, fits, first, e, answer_all) refl
        | inr (framed, w', e) ↦
            let rest : drop (length m) more ≡ framed_stream ms =
              drop-length_append m (framed_stream ms) in
            let later =
              handle_connection-answer_all ms fuel room w' h.1
                (omega (arith, f, length-append m (framed_stream ms))) in
            rw (long, size, fits, first, e, answer_all, size, rest, later) refl
      ]
