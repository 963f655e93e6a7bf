-- ===== src/Base/Errors.antt =====
-- The exceptions of hmmp/exceptions.py and of the standard library that the code raises, and the
-- result of code that may raise.
use mathlib.Core.Path.{◌≡◌, refl}
use mathlib.Core.Logic.{◌⊎◌, inl, inr}

pub data Raised : Type 0 where
  hmmp_error authentication_error tenant_access_denied_error stream_error config_error
        service_error :
      Raised
  redirect_error shutdown_notice_error backpressure_error circuit_breaker_open_error : Raised
  metadata_limit_error filter_expression_error : Raised
  protocol_error connection_error connection_closed_error : Raised
  handshake_error handshake_timeout_error nonce_error timeout_error decryption_error : Raised
  eof_error value_error struct_error unicode_error key_error attribute_error os_error type_error
        cancelled_error :
      Raised

pub data Result {ℓ} (A : Type ℓ) : Type ℓ where
  ok : A → Result A
  err : Raised → Result A

pub Result-cases {ℓ} :
    {A : Type ℓ} (r : Result A) → ((a : A) × (r ≡ ok a)) ⊎ ((e : Raised) × (r ≡ err e))
Result-cases (ok a) = inl (a, refl)
Result-cases (err e) = inr (e, refl)

-- The next step, unless this one raised.
infixl 5 ◌>>=◌
abbrev pub ◌>>=◌ {ℓ κ} : {A : Type ℓ} {B : Type κ} → Result A → (A → Result B) → Result B
ok a >>= f = f a
err e >>= f = err e

-- Where code after a first step returned `b`, the first step did return, and the rest gave `b`.
pub bind_returns {ℓ κ} :
    {A : Type ℓ} {B : Type κ} {b : B} (rest : A → Result B) (first : Result A)
    → (first >>= rest) ≡ ok b
    → (x : A) × (first ≡ ok x) × (rest x ≡ ok b)
bind_returns rest (ok x) returned = (x, refl, returned)
bind_returns rest (err why) returned = absurd (cc)
