-- ===== src/Failure.antt =====
-- The failures of the ML service as values (services/ml_service/src/ml_service/domain/errors.py).
-- `version_mismatch`, `media_fetch` and `media_decode` are the classes that a caller tells apart;
-- `unexpected` stands for every other exception.
use ml_service.Prelude.{◌≡◌, refl, arith}

pub data Failure : Type 0 where
  media_fetch media_decode version_mismatch unexpected : Failure

pub data Result {ℓ} (A : Type ℓ) : Type ℓ where
  ok : A → Result A
  err : Failure → Result A

infixl 5 ◌>>=◌
abbrev pub ◌>>=◌ {ℓ κ} : {A : Type ℓ} {B : Type κ} → Result A → (A → Result B) → Result B
ok x >>= next = next x
err failure >>= next = err failure

-- What came before a successful end succeeded.
pub >>=-eq-ok {ℓ κ} :
    {A : Type ℓ} {B : Type κ} {end : B} (first : Result A) (next : A → Result B)
    → (first >>= next) ≡ ok end
    → (x : A) × (first ≡ ok x) × (next x ≡ ok end)
>>=-eq-ok (ok x) next e = (x, refl, e)
>>=-eq-ok (err failure) next e = ground arith

pub ok-injective {ℓ} : {A : Type ℓ} {a b : A} → ok a ≡ ok b → a ≡ b
ok-injective h = cc
