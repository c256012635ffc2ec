-- ===== src/Web/Crypto.antt =====
-- The primitives of src/web/crypto.rs on octets.
pub mod Equal
use sagittarius.Prelude.{
  ℕ, ◌+◌, ◌-◌, ◌/◌, ◌%◌, bit_or, Bool, false, not, [], ◌∷◌, ltb, ◌==◌, if◌then◌else◌, length,
}
use Prim.Native.Nat.{bit_xor}
use sagittarius.Codec.Reader.{Bytes}

-- A digit of `HEX`.
unfoldable pub hex_digit : ℕ → ℕ
hex_digit n = if ltb n 10 then b'0' + n else b'a' + (n - 10)

-- `ToHex::to_hex`
unfoldable pub to_hex : Bytes → Bytes
unfolding hex_digit
to_hex [] = []
to_hex (b ∷ bytes) = hex_digit (b / 16) ∷ hex_digit (b % 16) ∷ to_hex bytes

-- The loop of `ct_eq`.
unfoldable pub differences : ℕ → Bytes → Bytes → ℕ
differences diff [] b = diff
differences diff (x ∷ a) [] = diff
differences diff (x ∷ a) (y ∷ b) = differences (bit_or diff (bit_xor x y)) a b

-- `ConstantTimeEq::ct_eq`
unfoldable pub ct_eq : Bytes → Bytes → Bool
unfolding differences
ct_eq a b = if not (length a == length b) then false else differences 0 a b == 0
