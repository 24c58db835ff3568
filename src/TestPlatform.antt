-- ===== src/TestPlatform.antt =====
-- A platform for the tests: an encoding of bytes as text that can be run, in a release build.
use Prim.Native.Char.{code}
use cqrs_account.Prelude.{
  ℕ, zero, suc, ◌≡◌, refl, sym, ap, ◌≢◌, String, List, [], ◌∷◌, arith, false,
}
use cqrs_account.Types.{Platform, ByteArray32}

-- A byte is as many strokes, and a mark at its end.
abbrev pub byte_text : ℕ → String → String
byte_text zero s = String.◌∷◌ "." s
byte_text (suc n) s = String.◌∷◌ "1" (byte_text n s)

abbrev pub encode : List ℕ → String
encode [] = String.[]
encode (n ∷ l) = byte_text n (encode l)

abbrev first_code : String → ℕ
first_code String.[] = 0
first_code (String.◌∷◌ c s) = code c

byte_text-injective : (n m : ℕ) (s t : String) → byte_text n s ≡ byte_text m t → (n ≡ m) × (s ≡ t)
byte_text-injective zero zero s t h = (refl, cc)
byte_text-injective zero (suc m) s t h = absurd (omega (arith, ap first_code h))
byte_text-injective (suc n) zero s t h = absurd (omega (arith, ap first_code h))
byte_text-injective (suc n) (suc m) s t h = ground (arith, byte_text-injective n m s t (cc))

byte_text-ne-empty : (n : ℕ) (s : String) → byte_text n s ≢ String.[]
byte_text-ne-empty zero s h = cc
byte_text-ne-empty (suc n) s h = cc

pub encode_injective : (a b : List ℕ) → encode a ≡ encode b → a ≡ b
encode_injective [] [] h = refl
encode_injective [] (y ∷ b) h = absurd (byte_text-ne-empty y (encode b) (sym h))
encode_injective (x ∷ a) [] h = absurd (byte_text-ne-empty x (encode a) h)
encode_injective (x ∷ a) (y ∷ b) h =
    let (e, k) = byte_text-injective x y (encode a) (encode b) h in
    ground (arith, encode_injective a b k)

instance abbrev pub test_platform : Platform
test_platform = record {
  hex_encode = encode;
  hex_encode_injective = encode_injective;
  overflow_checks = false;
}

abbrev pub filled : ℕ → ℕ → List ℕ
filled zero b = []
filled (suc n) b = b ∷ filled n b

-- `ByteArray32([b; 32])`
abbrev pub id_of : ℕ → ByteArray32
id_of b = record { bytes = filled 32 b }
