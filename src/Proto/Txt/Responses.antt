-- ===== src/Proto/Txt/Responses.antt =====
-- src/proto/txt.cc: what the commands make of a server's line, and of the body behind it.
use mcache_client.Prelude.{
  ℕ, ◌+◌, ◌-◌, ◌%◌, ◌^◌, Bool, false, [], ◌∷◌, ◌++◌, Option, none, some, ◌==◌, ltb, if◌then◌else◌,
  Bytes, codes, starts_with, take, length,
}
use mcache_client.Error.{ResponseCode, Exception, Result, returns, throws, ◌>>=◌}
use mcache_client.Proto.Key.{is_space}
use mcache_client.Proto.Options.{is_compressed}
use mcache_client.Proto.Zlib.{ZlibLibrary, uncompress}
use mcache_client.Proto.Response.{
  SingleResponse, SingleRetrievalResponse, single, retrieval_message, retrieval_found,
  retrieval_of_single,
}
use mcache_client.Proto.Txt.Streams.{skip_space, read_word, read_number, last_number}

-- `boost::trim_copy`: no space at either end.
unfoldable pub trim : Bytes → Bytes
unfolding skip_space
trim s = trim_end (skip_space s)
  where
    keep : ℕ → Bytes → Bytes
    keep c [] = if is_space c then [] else c ∷ []
    keep c (d ∷ rest) = c ∷ d ∷ rest

    trim_end : Bytes → Bytes
    trim_end [] = []
    trim_end (c ∷ s) = keep c (trim_end s)

unfoldable pub from_space : Bytes → Bytes
from_space [] = []
from_space (c ∷ s) = let later = from_space s in if c == b' ' then c ∷ s else later

-- `error_desc`.
unfoldable pub error_desc : Bytes → Bytes
unfolding trim from_space
error_desc header = trim (from_space header)

-- `command_t::deserialize_header`: the lines that any command may get. That the source looks at the
-- first octet before it compares the word makes no difference.
unfoldable pub deserialize_error : Bytes → SingleResponse
unfolding error_desc
deserialize_error header =
    if starts_with header (codes "ERROR")
    then single ResponseCode.error (codes "syntax error")
    else if starts_with header (codes "CLIENT_ERROR")
    then single ResponseCode.client_error (error_desc header)
    else if starts_with header (codes "SERVER_ERROR")
    then single ResponseCode.server_error (error_desc header)
    else single ResponseCode.unrecognized header

abbrev pub empty_response : SingleResponse
empty_response = single ResponseCode.empty (codes "empty response")

-- `storage_command_t::deserialize_header`.
unfoldable pub deserialize_storage : Bytes → SingleResponse
unfolding deserialize_error
deserialize_storage [] = empty_response
deserialize_storage (c ∷ s) =
    if starts_with (c ∷ s) (codes "EXISTS")
    then single ResponseCode.exists (codes "cas id expired")
    else if starts_with (c ∷ s) (codes "NOT_FOUND")
    then single ResponseCode.not_found (codes "cas id is invalid")
    else if starts_with (c ∷ s) (codes "NOT_STORED")
    then single ResponseCode.not_stored (codes "key (does not) exist")
    else if starts_with (c ∷ s) (codes "STORED")
    then single ResponseCode.stored []
    else deserialize_error (c ∷ s)

abbrev counted : Bytes → Option (ℕ × Bytes) → SingleResponse
counted header none = deserialize_error header
counted header (some n) = single ResponseCode.ok (trim header)

abbrev starts_with_digit : Bytes → Bool
starts_with_digit [] = false
starts_with_digit (c ∷ s) = if ltb c b'0' then false else ltb c (b'9' + 1)

-- `incr_decr_command_t::deserialize_header`.
unfoldable pub deserialize_counter : Bytes → SingleResponse
unfolding deserialize_error trim read_number
deserialize_counter [] = empty_response
deserialize_counter (c ∷ s) =
    if starts_with (c ∷ s) (codes "TOUCHED")
    then single ResponseCode.touched []
    else if starts_with (c ∷ s) (codes "NOT_FOUND")
    then single ResponseCode.not_found (codes "key does not exist")
    else if starts_with_digit (c ∷ s)
    then counted (c ∷ s) (read_number 64 (c ∷ s))
    else deserialize_error (c ∷ s)

-- `delete_command_t::deserialize_header`.
unfoldable pub deserialize_delete : Bytes → SingleResponse
unfolding deserialize_error
deserialize_delete [] = empty_response
deserialize_delete (c ∷ s) =
    if starts_with (c ∷ s) (codes "DELETED")
    then single ResponseCode.deleted []
    else if starts_with (c ∷ s) (codes "NOT_FOUND")
    then single ResponseCode.not_found (codes "key does not exist")
    else deserialize_error (c ∷ s)

-- `flush_all_command_t::deserialize_header`.
unfoldable pub deserialize_flush_all : Bytes → SingleResponse
unfolding deserialize_error
deserialize_flush_all [] = empty_response
deserialize_flush_all (c ∷ s) =
    if starts_with (c ∷ s) (codes "OK")
    then single ResponseCode.ok []
    else deserialize_error (c ∷ s)

-- The octets behind a value: a line end, `END` and a line end.
abbrev pub footer_size : ℕ
footer_size = 7

-- `retrieve_command_t::set_body`. The size without the footer is computed in 64 bits; no string can be
-- resized to what it wraps to.
unfoldable pub set_retrieved_body : ZlibLibrary → ℕ → Bytes → Bytes → Result (ℕ × Bytes)
set_retrieved_body zlib flags old_body input =
    let size = (length input + (2 ^ 64 - footer_size)) % 2 ^ 64 in
    if is_compressed flags
    then (do body ← uncompress zlib input 0 size; returns (flags, body))
    else if ltb (length input) size
    then throws Exception.length_error
    else returns (flags, take size input)

abbrev syntax_error : Bytes → SingleRetrievalResponse
syntax_error header = retrieval_message ResponseCode.syntax (codes "invalid response: " ++ header)

-- What is left of a line, and what to do with the next thing in it.
abbrev pub and_then {ℓ κ} : {A : Type ℓ} {B : Type κ} → Option (A × Bytes) → B → (A → Bytes → B) → B
and_then none otherwise next = otherwise
and_then (some (a, rest)) otherwise next = next a rest

-- `deserialize_value_resp`: the number behind the size is the `cas`, and zero where there is none.
unfoldable pub deserialize_value : ZlibLibrary → Bytes → SingleRetrievalResponse
unfolding read_word read_number last_number
deserialize_value zlib header = and_then (read_word header) (syntax_error header) λ value s1.
    and_then (read_word s1) (syntax_error header) λ key s2.
      and_then (read_number 32 s2) (syntax_error header) λ flags s3.
        and_then (read_number 64 s3) (syntax_error header) λ bytes s4.
          retrieval_found flags ((bytes + footer_size) % 2 ^ 64) (last_number 64 s4)
            (set_retrieved_body zlib)

-- `retrieve_command_t::deserialize_header`.
unfoldable pub deserialize_retrieve : ZlibLibrary → Bytes → SingleRetrievalResponse
unfolding deserialize_error deserialize_value
deserialize_retrieve zlib [] = retrieval_of_single empty_response
deserialize_retrieve zlib (c ∷ s) =
    if starts_with (c ∷ s) (codes "END")
    then retrieval_message ResponseCode.not_found (codes "not found")
    else if starts_with (c ∷ s) (codes "VALUE")
    then deserialize_value zlib (c ∷ s)
    else retrieval_of_single (deserialize_error (c ∷ s))
