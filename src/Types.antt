-- ===== src/Types.antt =====
-- `src/util/types.rs`, and what the program takes from its environment: `hex::encode`, and whether
-- the build checks `u64` arithmetic for overflow (a debug build) or wraps (a release build).
use cqrs_account.Prelude.{
  ℕ, ◌≡◌, ◌↔◌, Bool, true, List, String, arith, PartialEq, list_beq, list_beq_iff,
}

pub record ByteArray32 : Type 0 where
  pub bytes : List ℕ

abbrev pub ByteArray32-beq : ByteArray32 → ByteArray32 → Bool
ByteArray32-beq a b = list_beq a.bytes b.bytes

pub ByteArray32-beq_iff : (a b : ByteArray32) → (ByteArray32-beq a b ≡ true) ↔ (a ≡ b)
ByteArray32-beq_iff a b = ground (arith, list_beq_iff a.bytes b.bytes)

instance abbrev pub byte_array32_eq : PartialEq ByteArray32
byte_array32_eq = record { eq = ByteArray32-beq; reflects = ByteArray32-beq_iff }

-- `hex::encode` writes different bytes as different texts.
pub record Platform : Type 0 where
  pub hex_encode : List ℕ → String
  pub hex_encode_injective : (a b : List ℕ) → hex_encode a ≡ hex_encode b → a ≡ b
  pub overflow_checks : Bool

module _ ⦃platform : Platform⦄ where
  -- `ByteArray32::hex`
  unfoldable pub hex : ByteArray32 → String
  hex id = platform.hex_encode id.bytes

  pub hex-injective : (a b : ByteArray32) → hex a ≡ hex b → a ≡ b
  unfolding hex
  hex-injective a b h = ground (arith, platform.hex_encode_injective a.bytes b.bytes)
