-- ===== src/Base/Fallible.antt =====
-- A call that may raise.
use Prim.Native.String.{String}

-- An exception, by its text.
pub data Result {ℓ} (A : Type ℓ) : Type ℓ where
  ok : A → Result A
  raised : String → Result A
