-- ===== src/Marshal/Outcome.antt =====
-- What a member function of net/marshall.h may do: return, throw, or fault.
-- struct PacketError and the two that derive from it, with the text of what().
use Prim.Native.String.{String}

pub data PacketError : Type 0 where
  pack_error : String → PacketError
  unpack_error : String → PacketError

-- `fault` is no C++ result: the code read bytes outside the memory that it was given, or failed an
-- assertion.
pub data Outcome {ℓ} (A : Type ℓ) : Type ℓ where
  ok : A → Outcome A
  thrown : PacketError → Outcome A
  fault : Outcome A

-- A computation that changes an object of type S, also when it throws.
abbrev pub M : Type 0 → Type 0 → Type 0
M S A = S → Outcome A × S

abbrev pub pure : {S A : Type 0} → A → M S A
pure a s = (ok a, s)

abbrev pub throw : {S A : Type 0} → PacketError → M S A
throw e s = (thrown e, s)

-- What follows an outcome.
abbrev pub continue : {S A B : Type 0} → Outcome A → S → (A → M S B) → Outcome B × S
continue (ok a) s f = f a s
continue (thrown e) s f = (thrown e, s)
continue fault s f = (fault, s)

infixl 5 ◌>>=◌ ◌>>◌
abbrev pub ◌>>=◌ : {S A B : Type 0} → M S A → (A → M S B) → M S B
◌>>=◌ m f s = continue (m s).0 (m s).1 f

abbrev pub ◌>>◌ : {S B : Type 0} → M S (Unit {0}) → M S B → M S B
m >> k = m >>= λ _. k
