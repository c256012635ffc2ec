-- ===== src/Codec/Name/Write.antt =====
-- `Name::write` of src/codec/name.rs writes the wire form.
use sagittarius.Prelude.{
  ℕ, ◌%◌, ◌≡◌, refl, sym, ap, ◌∙◌, subst, false, List, [], ◌∷◌, ◌++◌, append_assoc, arith, ◌==◌,
  length, All,
}
use sagittarius.Codec.Reader.{Bytes}
use sagittarius.Codec.Writer.{Writer, write_u8}
use sagittarius.Codec.Name.{Name, split_dot, write_segment, write_segments, write}
use sagittarius.Codec.Name.Valid.{IsLabelByte, IsLabel, wire, dotted, text, IsValid}

pub no_dot : (b : ℕ) → IsLabelByte b → (b == b'.') ≡ false
no_dot b h = ground arith

-- A label ends at the first dot.
pub split_dot-label :
    (l xs : Bytes) → All IsLabelByte l → split_dot (l ++ (b'.' ∷ xs)) ≡ l ∷ split_dot xs
unfolding split_dot
split_dot-label [] xs h = refl
split_dot-label (b ∷ bs) xs h = rw (no_dot b h.0, split_dot-label bs xs h.1)

-- The segments of a dotted text are its labels, and an empty one behind the last dot.
pub split_dot-dotted : (ls : List Bytes) → All IsLabel ls → split_dot (dotted ls) ≡ ls ++ ([] ∷ [])
split_dot-dotted [] h = unfold split_dot in refl
split_dot-dotted (l ∷ ls) h =
    split_dot-label l (dotted ls) h.0.bytes ∙ ap (◌∷◌ l) (split_dot-dotted ls h.1)

write_segment-label :
    (l : Bytes) (w : Writer)
    → IsLabel l
    → write_segment w l ≡ record { buf = w.buf ++ (length l ∷ l) }
unfolding write_segment
write_segment-label [] w h = absurd (omega (arith, h.lower))
write_segment-label (b ∷ bs) w h =
    let e : length (b ∷ bs) % 256 ≡ length (b ∷ bs) = omega (arith, h.upper) in rw (e, append_assoc)

write_segments-labels :
    (ls : List Bytes) (w : Writer)
    → All IsLabel ls
    → (write_u8 (write_segments w (ls ++ ([] ∷ []))) 0).buf ≡ w.buf ++ wire ls
unfolding write_segments
write_segments-labels [] w h = unfold write_segment in refl
write_segments-labels (l ∷ ls) w h =
    ap (λ (v : Writer). (write_u8 (write_segments v (ls ++ ([] ∷ []))) 0).buf)
      (write_segment-label l w h.0)
    ∙ write_segments-labels ls (record { buf = w.buf ++ (length l ∷ l) }) h.1
    ∙ append_assoc w.buf (length l ∷ l) (wire ls)

write-text :
    (ls : List Bytes) (w : Writer)
    → All IsLabel ls
    → (write (record { inner = text ls }) w).buf ≡ w.buf ++ wire ls
unfolding write
write-text [] w h = refl
write-text (l ∷ ls) w h = rw (split_dot-dotted (l ∷ ls) h) (write_segments-labels (l ∷ ls) w h)

-- A valid name is appended in wire form.
pub write-wire : (n : Name) (v : IsValid n) (w : Writer) → (write n w).buf ≡ w.buf ++ wire v.labels
write-wire n v w =
    subst (λ (t : Bytes). (write (record { inner = t }) w).buf ≡ w.buf ++ wire v.labels)
      (sym v.is_text) (write-text v.labels w v.are_labels)
