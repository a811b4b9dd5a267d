-- ===== src/Proto/Codec/Words.antt =====
-- `to_le_bytes` and `from_le_bytes` of `u16` and `u32`.
use squish.Prelude.{ℕ, ◌+◌, ◌*◌, ◌/◌, ◌%◌, ◌<◌, ◌≡◌, refl, [], ◌∷◌, length, arith}
use squish.Proto.Message.{Bytes}

abbrev pub u32_mod : ℕ
u32_mod = 4294967296

abbrev pub u16_mod : ℕ
u16_mod = 65536

unfoldable pub u32_to_le : ℕ → Bytes
u32_to_le n = n % 256 ∷ n / 256 % 256 ∷ n / 65536 % 256 ∷ n / 16777216 % 256 ∷ []

unfoldable pub u32_from_le : Bytes → ℕ
u32_from_le (a ∷ b ∷ c ∷ d ∷ []) = a + 256 * b + 65536 * c + 16777216 * d
u32_from_le _ = 0

unfoldable pub u16_to_le : ℕ → Bytes
u16_to_le n = n % 256 ∷ n / 256 % 256 ∷ []

pub u32_from_le-u32_to_le : (n : ℕ) → n < u32_mod → u32_from_le (u32_to_le n) ≡ n
unfolding u32_from_le u32_to_le
u32_from_le-u32_to_le n h = omega arith

pub length-u32_to_le : (n : ℕ) → length (u32_to_le n) ≡ 4
unfolding u32_to_le
length-u32_to_le n = refl

pub length-u16_to_le : (n : ℕ) → length (u16_to_le n) ≡ 2
unfolding u16_to_le
length-u16_to_le n = refl

-- Two 16-bit lengths with one encoding are the same.
pub u16_to_le-injective : (m n : ℕ) → m < u16_mod → n < u16_mod → u16_to_le m ≡ u16_to_le n → m ≡ n
unfolding u16_to_le
u16_to_le-injective m n hm hn e = ground arith
