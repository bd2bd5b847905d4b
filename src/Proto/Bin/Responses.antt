-- ===== src/Proto/Bin/Responses.antt =====
-- src/proto/binary.cc: what the commands make of a server's header, and of the body behind it.
pub mod Bodies
pub mod Statuses
use mcache_client.Prelude.{
  ℕ, ◌+◌, Bool, [], ◌∷◌, ◌++◌, ◌==◌, not, ltb, if◌then◌else◌, Bytes, codes, from_be, decimal,
  length, take, drop,
}
use mcache_client.Error.{ResponseCode, Exception, Result, returns, throws, ◌>>=◌}
use mcache_client.Proto.Options.{is_compressed}
use mcache_client.Proto.Zlib.{ZlibLibrary, uncompress}
use mcache_client.Proto.Response.{
  SingleBodyResponse, SingleRetrievalResponse, IsResponse, body_message, body_of_size,
  retrieval_message, retrieval_found, retrieval_of_size, set_body_default, single_body_response,
  single_retrieval_response,
}
use mcache_client.Proto.Bin.Header.{Header, parse_header, response_magic}

-- `translate_status_to_response`, over the map that `initialize_map` fills.
unfoldable pub translate_status : ℕ → ResponseCode
translate_status code =
    if code == 0x0000
    then ResponseCode.ok
    else if code == 0x0001
    then ResponseCode.not_found
    else if code == 0x0002
    then ResponseCode.exists
    else if code == 0x0003
    then ResponseCode.server_error
    else if code == 0x0004
    then ResponseCode.client_error
    else if code == 0x0005
    then ResponseCode.not_stored
    else if code == 0x0006
    then ResponseCode.client_error
    else if code == 0x0081
    then ResponseCode.error
    else if code == 0x0082
    then ResponseCode.server_error
    else ResponseCode.error

-- How every `deserialize_header` begins: no octets, or a packet that is no response.
unfoldable pub with_header : {R : Type 0} ⦃i : IsResponse R⦄ → Bytes → (Header → R) → Result R
with_header ⦃i⦄ octets read =
    if length octets == 0
    then returns (i.of_status ResponseCode.empty (codes "empty response"))
    else do
      hdr ← parse_header octets
      returns (
          if not (hdr.magic == response_magic)
          then i.of_status ResponseCode.unrecognized (codes "bad magic in response")
          else read hdr)

-- `retrieve_command_t::set_body`. Fewer than four octets make the source read outside the string;
-- `substr` behind its end throws.
unfoldable pub set_retrieved_body : ZlibLibrary → ℕ → ℕ → Bytes → Bytes → Result (ℕ × Bytes)
set_retrieved_body zlib key_len old_flags old_body input =
    let flags = from_be (take 4 input) in
    if ltb (length input) 4
    then throws Exception.fault
    else if is_compressed flags
    then (do body ← uncompress zlib input (4 + key_len) (length input); returns (flags, body))
    else if ltb (length input) (4 + key_len)
    then throws Exception.out_of_range
    else returns (flags, drop (4 + key_len) input)

abbrev retrieved : ZlibLibrary → Header → SingleRetrievalResponse
retrieved zlib hdr =
    if hdr.status == 0
    then (if hdr.extras_len == 4
        then retrieval_found 0 hdr.body_len hdr.cas (set_retrieved_body zlib hdr.key_len)
        else retrieval_message ResponseCode.invalid (codes "bad extras length"))
    else retrieval_of_size (translate_status hdr.status) hdr.body_len

-- `retrieve_command_t::deserialize_header`.
unfoldable pub deserialize_retrieve : ZlibLibrary → Bytes → Result SingleRetrievalResponse
unfolding with_header
deserialize_retrieve zlib octets = with_header octets (retrieved zlib)

-- A status other than success, for the commands with a single body.
abbrev refused : Header → SingleBodyResponse
refused hdr = body_of_size (translate_status hdr.status) hdr.body_len set_body_default

-- `storage_command_t::deserialize_header`, `delete_command_t::deserialize_header` and
-- `flush_all_command_t::deserialize_header`: they differ in the code of a success.
unfoldable pub deserialize_plain : ResponseCode → Bytes → Result SingleBodyResponse
unfolding with_header
deserialize_plain success octets =
    with_header octets λ hdr. if hdr.status == 0 then body_message success [] else refused hdr

abbrev pub deserialize_storage : Bytes → Result SingleBodyResponse
deserialize_storage = deserialize_plain ResponseCode.stored

abbrev pub deserialize_delete : Bytes → Result SingleBodyResponse
deserialize_delete = deserialize_plain ResponseCode.deleted

abbrev pub deserialize_flush_all : Bytes → Result SingleBodyResponse
deserialize_flush_all = deserialize_plain ResponseCode.ok

-- `incr_decr_command_t::set_body`: the octets are copied over a `uint64_t` that is zero. More than
-- eight of them are written outside it.
unfoldable pub set_counter_body : Bytes → Bytes → Result Bytes
set_counter_body old_body input =
    if ltb 8 (length input)
    then throws Exception.fault
    else returns (decimal (from_be (take 8 (input ++ 0 ∷ 0 ∷ 0 ∷ 0 ∷ 0 ∷ 0 ∷ 0 ∷ 0 ∷ []))))

-- `incr_decr_command_t::deserialize_header`.
unfoldable pub deserialize_counter : Bytes → Result SingleBodyResponse
unfolding with_header
deserialize_counter octets = with_header octets λ hdr.
    if hdr.status == 0
    then (if hdr.body_len == 8
        then body_of_size ResponseCode.ok hdr.body_len set_counter_body
        else body_message ResponseCode.invalid (codes "bad body length"))
    else refused hdr

-- `touch_command_t::deserialize_header`: no test of the body's length.
unfoldable pub deserialize_touch : Bytes → Result SingleBodyResponse
unfolding with_header
deserialize_touch octets = with_header octets λ hdr.
    if hdr.status == 0
    then body_of_size ResponseCode.touched hdr.body_len set_counter_body
    else refused hdr
