-- ===== src/Codec/Reader/Laws.antt =====
-- Two views of the reads of src/codec/reader.rs: forwards, from the bytes that the cursor stands
-- before, and backwards, from a read that succeeded.
use sagittarius.Prelude.{
  ℕ, ◌+◌, ◌≤◌, ◌<◌, ◌≡◌, refl, sym, ap, ◌∙◌, subst, inl, inr, true, false, some, ◌∷◌, ◌++◌, arith,
  ltb, leb, le→leb, le→ltb, Option-cases, length, get_elem?, take, drop, length-append, length-take,
  length-drop, take-append-drop, take-length_append, drop-length_append, drop-drop, get_elem?-drop,
  get_elem?-lt, drop-get_elem?,
}
use sagittarius.Codec.Error.{ok, Returns, returns}
use sagittarius.Codec.Reader.{
  Bytes, Reader, advance, get_range, be_u16, read_u8, read_u16, read_u32, read_slice,
}
use sagittarius.Codec.Writer.{u16_bytes, u32_bytes}

-- What the cursor still has before it.
abbrev pub rest : Reader → Bytes
rest r = drop r.pos r.buf

module _ (r : Reader) where
  pub rest-advance : (xs ys : Bytes) → rest r ≡ xs ++ ys → rest (advance r (length xs)) ≡ ys
  rest-advance xs ys h =
      drop-drop r.pos (length xs) r.buf ∙ ap (drop (length xs)) h ∙ drop-length_append xs ys

  pub read_u8_front : (b : ℕ) (xs : Bytes) → rest r ≡ b ∷ xs → read_u8 r ≡ ok (b, advance r 1)
  unfolding read_u8
  read_u8_front b xs h =
      let e : get_elem? r.buf r.pos ≡ some b =
        subst (λ (k : ℕ). get_elem? r.buf k ≡ some b) (omega arith)
          (sym (get_elem?-drop r.pos 0 r.buf) ∙ ap (λ (l : Bytes). get_elem? l 0) h) in
      rw (e, read_u8)

  -- The bytes that the cursor stands before are a range of the buffer.
  get_range_front :
      (x : ℕ) (xs ys : Bytes)
      → rest r ≡ (x ∷ xs) ++ ys
      → get_range r.buf r.pos (length (x ∷ xs)) ≡ some (x ∷ xs)
  unfolding get_range
  get_range_front x xs ys h =
      let e : leb (r.pos + length (x ∷ xs)) (length r.buf) ≡ true =
        le→leb _ _ (omega (arith, length-drop r.pos r.buf, ap length h, length-append xs ys)) in
      rw (e, h) (ap some (take-length_append (x ∷ xs) ys))

  pub read_u16_front :
      (v : ℕ) (xs : Bytes)
      → v < 65536
      → rest r ≡ u16_bytes v ++ xs
      → read_u16 r ≡ ok (v, advance r 2)
  unfolding read_u16
  read_u16_front v xs hv h =
      let e : get_range r.buf r.pos 2 ≡ some (u16_bytes v) = get_range_front _ _ xs h in
      rw (e, read_u16) (ground arith)

  pub read_u32_front :
      (v : ℕ) (xs : Bytes)
      → v < 4294967296
      → rest r ≡ u32_bytes v ++ xs
      → read_u32 r ≡ ok (v, advance r 4)
  unfolding read_u32
  read_u32_front v xs hv h =
      let e : get_range r.buf r.pos 4 ≡ some (u32_bytes v) = get_range_front _ _ xs h in
      rw (e, read_u32) (ground arith)

  pub read_slice_front :
      (xs ys : Bytes)
      → r.pos ≤ length r.buf
      → rest r ≡ xs ++ ys
      → read_slice r (length xs) ≡ ok (xs, advance r (length xs))
  unfolding read_slice
  read_slice_front xs ys hp h =
      let e : ltb (length r.buf) (r.pos + length xs) ≡ false =
        le→ltb _ _ (omega (arith, length-drop r.pos r.buf, ap length h, length-append xs ys)) in
      rw (e, h) (ap (λ (l : Bytes). ok (l, advance r (length xs))) (take-length_append xs ys))

-- A read that succeeds moves the cursor by its size, within the buffer.
abbrev pub Moved : Reader → ℕ → Reader → Type 0
Moved r n r' = (r' ≡ advance r n) × (r.pos + n ≤ length r.buf)

module _ (r : Reader) {r' : Reader} where
  pub read_u8-Moved : (v : ℕ) → read_u8 r ≡ ok (v, r') → Moved r 1 r'
  unfolding read_u8
  read_u8-Moved v h = elim (Option-cases (get_elem? r.buf r.pos)) [
    | inl e ↦ ground (arith, e)
    | inr (b, e) ↦ ground (arith, e, get_elem?-lt r.buf r.pos e)
  ]

  pub read_u16-Moved : (v : ℕ) → read_u16 r ≡ ok (v, r') → Moved r 2 r'
  unfolding read_u16 get_range
  read_u16-Moved v h = ground arith

  pub read_u32-Moved : (v : ℕ) → read_u32 r ≡ ok (v, r') → Moved r 4 r'
  unfolding read_u32 get_range
  read_u32-Moved v h = ground arith

  pub read_slice-Moved : (n : ℕ) (s : Bytes) → read_slice r n ≡ ok (s, r') → Moved r n r'
  unfolding read_slice
  read_slice-Moved n s h = ground arith

module _ (r : Reader) {r' : Reader} where
  -- What a read returns, and what it leaves, is what the cursor stood before.
  pub rest-read_u8 : (b : ℕ) → read_u8 r ≡ ok (b, r') → rest r ≡ b ∷ rest r'
  unfolding read_u8
  rest-read_u8 b h = elim (Option-cases (get_elem? r.buf r.pos)) [
    | inl e ↦ absurd (ground (arith, e))
    | inr (c, e) ↦ ground (arith, e, drop-get_elem? r.buf r.pos e)
  ]

  pub rest-read_slice :
      (n : ℕ) (s : Bytes) → read_slice r n ≡ ok (s, r') → (rest r ≡ s ++ rest r') × (length s ≡ n)
  unfolding read_slice
  rest-read_slice n s h = ground (
    arith,
    take-append-drop n (drop r.pos r.buf),
    drop-drop r.pos n r.buf,
    length-take n (drop r.pos r.buf),
    length-drop r.pos r.buf,
  )

-- No read needs fuel.
module _ (r : Reader) where
  pub read_u8-Returns : Returns (read_u8 r)
  unfolding read_u8
  read_u8-Returns = elim (Option-cases (get_elem? r.buf r.pos)) [
    | inl e ↦ rw (e, read_u8) (search returns)
    | inr (b, e) ↦ rw (e, read_u8) (search returns)
  ]

  pub read_u16-Returns : Returns (read_u16 r)
  unfolding read_u16
  read_u16-Returns = elim (Option-cases (get_range r.buf r.pos 2)) [
    | inl e ↦ rw (e, read_u16) (search returns)
    | inr (b, e) ↦ rw (e, read_u16) (search returns)
  ]

  pub read_u32-Returns : Returns (read_u32 r)
  unfolding read_u32
  read_u32-Returns = elim (Option-cases (get_range r.buf r.pos 4)) [
    | inl e ↦ rw (e, read_u32) (search returns)
    | inr (b, e) ↦ rw (e, read_u32) (search returns)
  ]

  pub read_slice-Returns : (n : ℕ) → Returns (read_slice r n)
  unfolding read_slice
  read_slice-Returns n = search returns

pub read_u16_fits :
    (r : Reader)
    → r.pos + 2 ≤ length r.buf
    → read_u16 r ≡ ok (be_u16 (take 2 (drop r.pos r.buf)), advance r 2)
unfolding read_u16 get_range
read_u16_fits r h = rw (le→leb _ _ h, read_u16) refl
