-- ===== src/Conformance/Hex.antt =====
-- Hexadecimal, written and read: `to_hex` and `unhex` of crates/vaid-mint/src/bin/conformance.rs.
use vaid.Prelude.{ℕ, ◌/◌, ◌%◌, ◌<◌, ◌≡◌, refl, some, [], ◌∷◌, Bytes, false, leb, All, arith, ◌==◌}
use vaid.Document.{hex_digit, to_hex}
use vaid.Conformance.{unhex, hex_value, from_str_radix, continues}

hex_value-hex_digit : (d : ℕ) → d < 16 → hex_value (hex_digit d) ≡ some d
hex_value-hex_digit d h = ground arith

hex_digit_plus : (d : ℕ) → d < 16 → (hex_digit d == b'+') ≡ false
hex_digit_plus d h = ground arith

hex_digit_ascii : (d : ℕ) → d < 16 → leb 128 (hex_digit d) ≡ false
hex_digit_ascii d h = ground arith

from_str_radix-digits :
    (b : ℕ) → b < 256 → from_str_radix (hex_digit (b / 16)) (hex_digit (b % 16)) ≡ some b
from_str_radix-digits b h =
    rw
      (
        hex_digit_plus (b / 16) (omega arith),
        hex_value-hex_digit (b / 16) (omega arith),
        hex_value-hex_digit (b % 16) (omega arith),
      )
      (ground arith)

continues-to_hex : (bs : Bytes) → All (λ b. b < 256) bs → continues (to_hex bs) ≡ false
unfolding to_hex
continues-to_hex [] h = refl
continues-to_hex (b ∷ bs) (h, hs) = rw (hex_digit_ascii (b / 16) (omega arith)) refl

-- Bytes that are written as hexadecimal digits are read back as the same bytes, and without a
-- panic.
pub unhex-to_hex : (bs : Bytes) → All (λ b. b < 256) bs → unhex (to_hex bs) ≡ some bs
unfolding unhex to_hex
unhex-to_hex [] h = refl
unhex-to_hex (b ∷ bs) (h, hs) =
    rw (continues-to_hex bs hs, unhex-to_hex bs hs, from_str_radix-digits b h) refl
