-- ===== src/Proto/Bin/Responses/Bodies.antt =====
-- The bodies of binary responses: values with their flags, and counters.
use mcache_client.Prelude.{
  ℕ, ◌+◌, ◌<◌, ◌^◌, ◌≡◌, ◌≢◌, refl, true, false, [], ◌∷◌, ◌++◌, arith, le→not_ltb, lt→ltb, Bytes,
  length, length-append, take, drop, take_seam, drop_seam, be, from_be, length-be, from_be-be,
  decimal, append_assoc, take_all,
}
use mcache_client.Error.{ResponseCode, Exception, returns, throws}
use mcache_client.Proto.Response.{SingleBodyResponse, set_single_body, single_body_response}
use mcache_client.Proto.Options.{is_compressed}
use mcache_client.Proto.Zlib.{ZlibLibrary, Inflates, compress, uncompress-compress}
use mcache_client.Proto.Bin.Header.{Header, header_bytes}
use mcache_client.Proto.Bin.Responses.Statuses.{IsReply, with_header-reply}
use mcache_client.Proto.Bin.Responses.{
  set_retrieved_body, set_counter_body, deserialize_counter, deserialize_touch,
}

-- The body of a hit as a server sends it: the flags, the key (as long as the header says), the value.
abbrev pub hit_body : ℕ → Bytes → Bytes → Bytes
hit_body flags key value = be 4 flags ++ (key ++ value)

module _ (zlib : ZlibLibrary) (flags old_flags : ℕ) (key value old_body : Bytes) where
  hit_length : length (hit_body flags key value) ≡ 4 + length key + length value
  hit_length =
      omega (
        arith,
        length-append (be 4 flags) (key ++ value),
        length-append key value,
        length-be 4 flags,
      )

  hit_flags : flags < 2 ^ 32 → from_be (take 4 (hit_body flags key value)) ≡ flags
  hit_flags h =
      rw (take_seam 4 (be 4 flags) (key ++ value) (length-be 4 flags)) (from_be-be 4 flags h)

  hit_value : drop (4 + length key) (hit_body flags key value) ≡ value
  hit_value = rw (← append_assoc (be 4 flags) key value) (
      drop_seam (4 + length key) (be 4 flags ++ key) value
        (omega (arith, length-append (be 4 flags) key, length-be 4 flags)))

  -- Of a hit whose flags, of 32 bits, ask for no decompression the client gets the server's flags and its value,
  -- octet for octet.
  pub set_retrieved_body_plain :
      flags < 2 ^ 32
      → is_compressed flags ≡ false
      → set_retrieved_body zlib (length key) old_flags old_body (hit_body flags key value)
        ≡ returns (flags, value)
  unfolding set_retrieved_body
  set_retrieved_body_plain h plain = rw (
    le→not_ltb (length (hit_body flags key value)) 4 (omega (arith, hit_length)),
    hit_flags h,
    plain,
    le→not_ltb (length (hit_body flags key value)) (4 + length key) (omega (arith, hit_length)),
    hit_value,
  )

  -- Of a hit whose flags, of 32 bits, ask for decompression the client gets the value of less than 4 GiB
  -- that was compressed for the server, where the library inflates what it has deflated.
  pub set_retrieved_body_compressed :
      Inflates zlib
      → (input : Bytes) → flags < 2 ^ 32
      → is_compressed flags ≡ true
      → length input < 2 ^ 32
      → compress zlib input ≡ returns value
      → set_retrieved_body zlib (length key) old_flags old_body (hit_body flags key value)
        ≡ returns (flags, input)
  unfolding set_retrieved_body
  set_retrieved_body_compressed inf input h packed small made =
      let body = hit_body flags key value in
      let cut : take (length body) (drop (4 + length key) body) ≡ value =
        rw hit_value (take_all (length body) value (omega (arith, hit_length))) in
      rw (
        le→not_ltb (length body) 4 (omega (arith, hit_length)),
        hit_flags h,
        packed,
        uncompress-compress zlib inf input value body (4 + length key) (length body) small made cut,
      )

-- A counter's eight octets are shown in decimal.
pub set_counter_body-be :
    (n : ℕ) (old_body : Bytes)
    → n < 2 ^ 64
    → set_counter_body old_body (be 8 n) ≡ returns (decimal n)
unfolding set_counter_body
set_counter_body-be n old_body h = rw (
  length-be 8 n,
  take_seam 8 (be 8 n) (0 ∷ 0 ∷ 0 ∷ 0 ∷ 0 ∷ 0 ∷ 0 ∷ 0 ∷ []) (length-be 8 n),
  from_be-be 8 n h,
)

module _ (h : Header) (v : IsReply h) (success : h.status ≡ 0) where
  -- What `incr` or `decr` makes of a success: the body is eight octets and gives the counter, or the
  -- response is invalid and no body is read. So the copy into the counter stays inside it.
  pub deserialize_counter-reply :
      (n : ℕ)
      → n < 2 ^ 64
      → (r : SingleBodyResponse) × (deserialize_counter (header_bytes h) ≡ returns r)
        × (h.body_len ≡ 8
            → (r.bytes ≡ 8)
              × (set_single_body r (be 8 n)
                  ≡ returns (record r { status = ResponseCode.ok; aux = decimal n })))
        × (h.body_len ≢ 8 → (r.status ≡ ResponseCode.invalid) × (r.bytes ≡ 0))
  unfolding deserialize_counter set_single_body
  deserialize_counter-reply n b = (
    _,
    with_header-reply h _ v,
    (λ e. rw (success, e) (refl, rw (set_counter_body-be n [] b))),
    (λ ne. ground arith),
  )

  -- `touch` has no such test: a success with a body of more than eight octets, which the client reads
  -- in full, is copied over the end of the eight octets on the stack.
  pub deserialize_touch_overflows :
      (input : Bytes)
      → 8 < h.body_len
      → length input ≡ h.body_len
      → (r : SingleBodyResponse) × (deserialize_touch (header_bytes h) ≡ returns r)
        × (r.bytes ≡ length input)
        × (set_single_body r input ≡ throws Exception.fault)
  unfolding deserialize_touch set_single_body set_counter_body
  deserialize_touch_overflows input long e = (
    _,
    with_header-reply h _ v,
    rw (success, e),
    rw success (rw (lt→ltb 8 (length input) (omega arith))),
  )
