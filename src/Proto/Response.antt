-- ===== src/Proto/Response.antt =====
-- include/mcache/proto/response.h: what a command returns. The three classes of the source are three
-- records; `IsResponse` is what the code that is generic in the response uses of them.
use mcache_client.Prelude.{ℕ, ◌/◌, ◌≡◌, refl, [], Bool, ◌==◌, Bytes}
use mcache_client.Error.{
  ResponseCode, Exception, proto_error, Result, returns, ◌>>=◌, response_value,
}

-- `single_response_t`.
pub record SingleResponse : Type 0 where
  pub status : ResponseCode
  pub aux : Bytes

-- `operator bool`.
unfoldable pub is_success : ResponseCode → Bool
is_success status = response_value status / 100 == 2

-- `single_body_response_t`. The callback gets the old body and the data, and gives the new body.
pub record SingleBodyResponse : Type 0 where
  pub status : ResponseCode
  pub aux : Bytes
  pub bytes : ℕ
  pub set_body_callback : Bytes → Bytes → Result Bytes

-- `single_body_response_t::set_body_default`.
unfoldable pub set_body_default : Bytes → Bytes → Result Bytes
set_body_default body input = returns input

-- `single_retrival_response_t`. The callback gets the old flags, the old body and the data.
pub record SingleRetrievalResponse : Type 0 where
  pub status : ResponseCode
  pub aux : Bytes
  pub flags : ℕ
  pub cas : ℕ
  pub bytes : ℕ
  pub set_body_callback : ℕ → Bytes → Bytes → Result (ℕ × Bytes)

-- `single_retrival_response_t::set_body_default`.
unfoldable pub set_flagged_body_default : ℕ → Bytes → Bytes → Result (ℕ × Bytes)
set_flagged_body_default flags body input = returns (flags, input)

-- The constructors, in the order of the source.
abbrev pub single : ResponseCode → Bytes → SingleResponse
single status aux = record { status = status; aux = aux }

abbrev pub body_message : ResponseCode → Bytes → SingleBodyResponse
body_message status aux = record {
  status = status;
  aux = aux;
  bytes = 0;
  set_body_callback = set_body_default;
}

abbrev pub body_of_size : ResponseCode → ℕ → (Bytes → Bytes → Result Bytes) → SingleBodyResponse
body_of_size status bytes callback = record {
  status = status;
  aux = [];
  bytes = bytes;
  set_body_callback = callback;
}

abbrev pub retrieval_message : ResponseCode → Bytes → SingleRetrievalResponse
retrieval_message status aux = record {
  status = status;
  aux = aux;
  flags = 0;
  cas = 0;
  bytes = 0;
  set_body_callback = set_flagged_body_default;
}

abbrev pub retrieval_found :
    ℕ → ℕ → ℕ → (ℕ → Bytes → Bytes → Result (ℕ × Bytes)) → SingleRetrievalResponse
retrieval_found flags bytes cas callback = record {
  status = ResponseCode.ok;
  aux = [];
  flags = flags;
  cas = cas;
  bytes = bytes;
  set_body_callback = callback;
}

abbrev pub retrieval_of_size : ResponseCode → ℕ → SingleRetrievalResponse
retrieval_of_size status bytes = record {
  status = status;
  aux = [];
  flags = 0;
  cas = 0;
  bytes = bytes;
  set_body_callback = set_flagged_body_default;
}

abbrev pub retrieval_of_single : SingleResponse → SingleRetrievalResponse
retrieval_of_single r = retrieval_message r.status r.aux

-- `code`, `data`, the constructor from a status and a message, and, where the class has `set_body`,
-- that method and the size that it expects.
pub record IsResponse (R : Type 0) : Type 0 where
  pub code : R → ResponseCode
  pub text : R → Bytes
  pub of_status : ResponseCode → Bytes → R
  pub expected_body_size : R → ℕ
  pub set_body : R → Bytes → Result R
  pub code-of_status : (c : ResponseCode) (t : Bytes) → code (of_status c t) ≡ c

unfoldable pub set_single_body : SingleBodyResponse → Bytes → Result SingleBodyResponse
set_single_body r input = do
  body ← r.set_body_callback r.aux input
  returns (record r { aux = body })

unfoldable pub set_retrieval_body : SingleRetrievalResponse → Bytes → Result SingleRetrievalResponse
set_retrieval_body r input = do
  found ← r.set_body_callback r.flags r.aux input
  returns (record r { flags = found.0; aux = found.1 })

instance abbrev pub single_response : IsResponse SingleResponse
single_response = record {
  code = λ r. r.status;
  text = λ r. r.aux;
  of_status = single;
  expected_body_size = λ r. 0;
  set_body = λ r input. returns r;
  code-of_status = λ c t. refl;
}

instance abbrev pub single_body_response : IsResponse SingleBodyResponse
single_body_response = record {
  code = λ r. r.status;
  text = λ r. r.aux;
  of_status = body_message;
  expected_body_size = λ r. r.bytes;
  set_body = set_single_body;
  code-of_status = λ c t. refl;
}

instance abbrev pub single_retrieval_response : IsResponse SingleRetrievalResponse
single_retrieval_response = record {
  code = λ r. r.status;
  text = λ r. r.aux;
  of_status = retrieval_message;
  expected_body_size = λ r. r.bytes;
  set_body = set_retrieval_body;
  code-of_status = λ c t. refl;
}

-- `exception`.
unfoldable pub exception : {R : Type 0} ⦃i : IsResponse R⦄ → R → Exception
exception ⦃i⦄ r = proto_error (i.code r) (i.text r)
