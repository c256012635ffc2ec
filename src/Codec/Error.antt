-- ===== src/Codec/Error.antt =====
-- `codec::Error` (src/codec/mod.rs) and the result type of every fallible codec operation.
use sagittarius.Prelude.{ℕ, ◌≡◌, ◌⊎◌, inl, inr, refl, Bool, true, false, if◌then◌else◌}

pub data Error : Type 0 where
  message_too_short : ℕ → Error
  invalid_question_count : ℕ → Error
  not_a_request : Error
  unsupported_opcode : ℕ → Error
  compression_pointer_in_question : Error
  -- offset, needed, available
  unexpected_eof : ℕ → ℕ → ℕ → Error
  truncated_length_prefix : ℕ → Error
  label_too_long : ℕ → Error
  name_too_long : ℕ → Error
  name_skip_limit_exceeded : Error
  -- target, msg_len
  invalid_pointer_target : ℕ → ℕ → Error
  empty_label : Error
  invalid_label_byte : ℕ → Error
  message_too_long : ℕ → Error

-- `Result<A, E>`. `out_of_fuel` is no value of the program: it marks a loop that was given too
-- little fuel, and each loop has a theorem that its fuel is enough.
pub data Result {ℓ} (E : Type 0) (A : Type ℓ) : Type ℓ where
  ok : A → Result E A
  err : E → Result E A
  out_of_fuel : Result E A

-- The `?` operator.
infixl 5 ◌>>=◌
abbrev pub ◌>>=◌ {ℓ κ} :
    {E : Type 0} {A : Type ℓ} {B : Type κ} → Result E A → (A → Result E B) → Result E B
ok a >>= f = f a
err e >>= f = err e
out_of_fuel >>= f = out_of_fuel

-- `Result::map_err`.
abbrev pub map_err {ℓ} : {E F : Type 0} {A : Type ℓ} → (E → F) → Result E A → Result F A
map_err f (ok a) = ok a
map_err f (err e) = err (f e)
map_err f out_of_fuel = out_of_fuel

-- What a chain that succeeds has run.
module _ {ℓ κ} {E : Type 0} {A : Type ℓ} {B : Type κ} {result : B} where
  pub >>=-eq-ok :
      (first : Result E A) (next : A → Result E B)
      → (first >>= next) ≡ ok result
      → (a : A) × (first ≡ ok a) × (next a ≡ ok result)
  >>=-eq-ok out_of_fuel next h = cc
  >>=-eq-ok (err e) next h = cc
  >>=-eq-ok (ok value) next h = (value, refl, h)

-- An operation ends: it has enough fuel.
pub data Returns {ℓ} {E : Type 0} {A : Type ℓ} : Result E A → Type ℓ where
  with_value : (a : A) → Returns (ok a)
  with_error : (e : E) → Returns (err e)

-- An operation that ends has a value or an error.
pub Returns-cases {ℓ} :
    {E : Type 0} {A : Type ℓ} (r : Result E A)
    → Returns r
    → ((a : A) × (r ≡ ok a)) ⊎ ((e : E) × (r ≡ err e))
Returns-cases (ok a) h = inl (a, refl)
Returns-cases (err e) h = inr (e, refl)
Returns-cases out_of_fuel h = elim h [ ]

module _ {ℓ κ} {E : Type 0} {A : Type ℓ} {B : Type κ} where
  pub >>=-Returns :
      (m : Result E A) (f : A → Result E B)
      → Returns m
      → ((a : A) → m ≡ ok a → Returns (f a))
      → Returns (m >>= f)
  >>=-Returns (ok a) f h k = k a refl
  >>=-Returns (err e) f h k = with_error e
  >>=-Returns out_of_fuel f h k = elim h [ ]

  pub map-Returns : (m : Result E A) (f : A → B) → Returns m → Returns (m >>= λ a. ok (f a))
  map-Returns m f h = >>=-Returns m _ h (λ a _. with_value (f a))

pub if-Returns {ℓ} :
    {E : Type 0} {A : Type ℓ} (b : Bool) (x y : Result E A)
    → (b ≡ true → Returns x)
    → (b ≡ false → Returns y)
    → Returns (if b then x else y)
if-Returns true x y hx hy = hx refl
if-Returns false x y hx hy = hy refl

-- A refused test.
pub guard-Returns {ℓ} :
    {E : Type 0} {A : Type ℓ} (b : Bool) (e : E) (y : Result E A)
    → (b ≡ false → Returns y)
    → Returns (if b then err e else y)
guard-Returns true e y hy = with_error e
guard-Returns false e y hy = hy refl

pub ruleset returns = (with_value, with_error, if-Returns, >>=-Returns)

-- Every error that an operation raises has `P`.
pub data Raises {ℓ} {E : Type 0} {A : Type ℓ} (P : E → Type 0) : Result E A → Type ℓ where
  no_error : (a : A) → Raises P (ok a)
  this_error : (e : E) → P e → Raises P (err e)
  no_fuel : Raises P out_of_fuel

module _ {ℓ κ} {E : Type 0} {A : Type ℓ} {B : Type κ} {P : E → Type 0} where
  pub >>=-Raises :
      (m : Result E A) (f : A → Result E B)
      → Raises P m
      → ((a : A) → Raises P (f a))
      → Raises P (m >>= f)
  >>=-Raises (ok a) f h k = k a
  >>=-Raises (err e) f (this_error _ p) k = this_error e p
  >>=-Raises out_of_fuel f h k = no_fuel

pub if-Raises {ℓ} :
    {E : Type 0} {A : Type ℓ} {P : E → Type 0} (b : Bool) (x y : Result E A)
    → Raises P x
    → Raises P y
    → Raises P (if b then x else y)
if-Raises true x y hx hy = hx
if-Raises false x y hx hy = hy

pub Raises-err {ℓ} :
    {E : Type 0} {A : Type ℓ} {P : E → Type 0} {e : E} → Raises {A = A} P (err e) → P e
Raises-err (this_error _ p) = p

pub Raises-map {ℓ} :
    {E : Type 0} {A : Type ℓ} {P Q : E → Type 0} {m : Result E A}
    → ((e : E) → P e → Q e)
    → Raises P m
    → Raises Q m
Raises-map f (no_error a) = no_error a
Raises-map f (this_error e p) = this_error e (f e p)
Raises-map f no_fuel = no_fuel

pub ruleset raises = (no_error, this_error, no_fuel, if-Raises, >>=-Raises)

pub ok-injective {ℓ} :
    {E : Type 0} {A : Type ℓ} {a b : A} → ◌≡◌ {A = Result E A} (ok a) (ok b) → a ≡ b
ok-injective h = cc

pub Result-cases {ℓ} :
    {E : Type 0} {A : Type ℓ} (m : Result E A)
    → ((a : A) × (m ≡ ok a)) ⊎ (((e : E) × (m ≡ err e)) ⊎ (m ≡ out_of_fuel))
Result-cases (ok a) = inl (a, refl)
Result-cases (err e) = inr (inl (e, refl))
Result-cases out_of_fuel = inr (inr refl)
