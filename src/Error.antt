-- ===== src/Error.antt =====
-- include/mcache/error.h, include/mcache/io/error.h and include/mcache/proto/error.h: the error
-- codes, the exceptions that carry them, and computations that may throw.
use mcache_client.Prelude.{ℕ, ◌≡◌, refl, ◌⊎◌, inl, inr, Bytes}

-- `mc::err::error_code_t`.
pub data ErrorCode : Type 0 where
  bad_request not_found method_not_allowed bad_argument unable_cas internal_error : ErrorCode

-- `mc::io::err::error_code_t`.
pub data IoErrorCode : Type 0 where
  syntax_error not_found timeout argument internal_error io_error : IoErrorCode

-- `mc::proto::resp::response_code_t`.
pub data ResponseCode : Type 0 where
  ok stored deleted touched : ResponseCode
  not_stored exists not_found : ResponseCode
  error client_error server_error empty io_error syntax invalid : ResponseCode
  unrecognized : ResponseCode

-- The numbers of `response_code_t`.
unfoldable pub response_value : ResponseCode → ℕ
response_value ResponseCode.ok = 200
response_value ResponseCode.stored = 201
response_value ResponseCode.deleted = 202
response_value ResponseCode.touched = 203
response_value ResponseCode.not_stored = 400
response_value ResponseCode.exists = 401
response_value ResponseCode.not_found = 404
response_value ResponseCode.error = 500
response_value ResponseCode.client_error = 501
response_value ResponseCode.server_error = 502
response_value ResponseCode.empty = 503
response_value ResponseCode.io_error = 504
response_value ResponseCode.syntax = 505
response_value ResponseCode.invalid = 506
response_value ResponseCode.unrecognized = 1000

-- What a call may throw. `fault` is no exception of the source: it marks a read or a write outside
-- an object, for which C++ defines no behaviour.
pub data Exception : Type 0 where
  mc_error : ErrorCode → Bytes → Exception
  io_error : IoErrorCode → Bytes → Exception
  proto_error : ResponseCode → Bytes → Exception
  out_of_servers : Exception
  out_of_range : Exception
  length_error : Exception
  system_error : Bytes → Exception
  fault : Exception

pub data Result {ℓ} (A : Type ℓ) : Type ℓ where
  returns : A → Result A
  throws : Exception → Result A

infixl 5 ◌>>=◌ ◌>>◌
abbrev pub ◌>>=◌ {ℓ κ} : {A : Type ℓ} {B : Type κ} → Result A → (A → Result B) → Result B
returns a >>= f = f a
throws e >>= f = throws e

abbrev pub ◌>>◌ {ℓ} : {B : Type ℓ} → Result (Unit {0}) → Result B → Result B
m >> k = m >>= λ _. k

-- The inversion of a block that returns.
pub >>=-eq-returns {ℓ κ} :
    {A : Type ℓ} {B : Type κ} (m : Result A) (f : A → Result B) {b : B}
    → (m >>= f) ≡ returns b
    → (a : A) × (m ≡ returns a) × (f a ≡ returns b)
>>=-eq-returns (returns a) f h = (a, refl, h)
>>=-eq-returns (throws e) f h = cc

pub returns_injective {ℓ} : {A : Type ℓ} {a b : A} → returns a ≡ returns b → a ≡ b
returns_injective e = cc

pub Result-cases {ℓ} :
    {A : Type ℓ} (r : Result A) → ((a : A) × (r ≡ returns a)) ⊎ ((e : Exception) × (r ≡ throws e))
Result-cases (returns a) = inl (a, refl)
Result-cases (throws e) = inr (e, refl)
