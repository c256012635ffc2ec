-- ===== src/Codec/Name/RoundTrip.antt =====
-- `Name::write` and `Name::read_question` of src/codec/name.rs are inverse to one another.
use sagittarius.Prelude.{
  ℕ, ◌+◌, ◌≡◌, sym, ap, ◌∙◌, ◌++◌, length, append_assoc, length-append, drop-length_append,
}
use sagittarius.Codec.Error.{ok}
use sagittarius.Codec.Reader.{Bytes, Reader}
use sagittarius.Codec.Reader.Laws.{rest}
use sagittarius.Codec.Writer.{Writer}
use sagittarius.Codec.Name.{Name, read_question, write}
use sagittarius.Codec.Name.Valid.{IsValid, wire}
use sagittarius.Codec.Name.Write.{write-wire}
use sagittarius.Codec.Name.Question.{read_question-wire}

-- A cursor of `pos` on a written buffer with `more` behind it.
abbrev pub cursor : Writer → Bytes → ℕ → Reader
cursor w more pos = record { buf = w.buf ++ more; pos = pos }

-- A valid name that was written at the end of a buffer is read back from there, whatever follows
-- it, and the cursor ends behind it.
pub read_question-write :
    (n : Name) (w : Writer) (more : Bytes)
    → IsValid n
    → read_question (cursor (write n w) more (length w.buf))
      ≡ ok (n, cursor (write n w) more (length (write n w).buf))
read_question-write n w more v =
    let r = cursor (write n w) more (length w.buf) in
    let size : length w.buf + length (wire v.labels) ≡ length (write n w).buf =
      rw (write-wire n v w) (sym (length-append w.buf (wire v.labels))) in
    let front : rest r ≡ wire v.labels ++ more =
      rw (write-wire n v w, append_assoc w.buf (wire v.labels) more)
        (drop-length_append w.buf (wire v.labels ++ more)) in
    read_question-wire n v r more front ∙ ap (λ (p : ℕ). ok (n, cursor (write n w) more p)) size
