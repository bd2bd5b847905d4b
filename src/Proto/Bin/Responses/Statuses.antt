-- ===== src/Proto/Bin/Responses/Statuses.antt =====
-- What each status of the binary protocol becomes, and which headers are taken for an answer.
use mcache_client.Prelude.{ℕ, ◌≤◌, ◌≡◌, ◌≢◌, refl, ◌↔◌, [], append-nil, arith}
use mcache_client.Error.{ResponseCode, returns, response_value}
use mcache_client.Proto.Response.{
  SingleBodyResponse, SingleRetrievalResponse, IsResponse, single_body_response,
  single_retrieval_response,
}
use mcache_client.Proto.Zlib.{ZlibLibrary}
use mcache_client.Proto.Bin.Header.{Header, header_bytes, response_magic}
use mcache_client.Proto.Bin.Header.RoundTrip.{
  IsHeader, parse_header-header_bytes, length-header_bytes,
}
use mcache_client.Proto.Bin.Responses.{
  translate_status, with_header, deserialize_retrieve, deserialize_plain,
}

-- A status becomes `ok` only if it is success; every other becomes a code of the 400 or 500 range.
pub translate_status_range :
    (status : ℕ)
    → ((translate_status status ≡ ResponseCode.ok) ↔ (status ≡ 0))
      × (status ≢ 0
          → (400 ≤ response_value (translate_status status))
            × (response_value (translate_status status) ≤ 502))
unfolding translate_status response_value
translate_status_range status = (((λ e. ground arith), (λ e. ground arith)), (λ ne. ground arith))

-- A header of 24 octets that a server sent.
pub record IsReply (h : Header) : Type 0 where
  pub fits : IsHeader h
  pub magic : h.magic ≡ response_magic

pub with_header-reply :
    {R : Type 0} ⦃i : IsResponse R⦄ (h : Header) (read : Header → R)
    → IsReply h
    → with_header (header_bytes h) read ≡ returns (read h)
unfolding with_header
with_header-reply h read v =
    let parsed = rw append-nil at (parse_header-header_bytes h [] v.fits) in
    rw (length-header_bytes h, parsed, v.magic)

module _ (h : Header) (v : IsReply h) where
  -- A storage, delete or `flush_all` command reports its success code exactly for status 0, and then
  -- reads no body; for another status it reads the body that the header announces, for its message.
  pub deserialize_plain-reply :
      (success : ResponseCode)
      → (r : SingleBodyResponse) × (deserialize_plain success (header_bytes h) ≡ returns r)
        × (h.status ≡ 0 → (r.status ≡ success) × (r.bytes ≡ 0))
        × (h.status ≢ 0 → (r.status ≡ translate_status h.status) × (r.bytes ≡ h.body_len))
  unfolding deserialize_plain
  deserialize_plain-reply success =
      (_, with_header-reply h _ v, (λ e. rw e (refl, refl)), (λ ne. ground arith))

  -- A retrieval takes status 0 for a hit only with the four octets of flags in the extras, and then
  -- keeps the header's `cas` and reads the whole body; without them the answer is invalid and its body
  -- is not read. For another status it reads the body as the message.
  pub deserialize_retrieve-reply :
      (zlib : ZlibLibrary)
      → (r : SingleRetrievalResponse) × (deserialize_retrieve zlib (header_bytes h) ≡ returns r)
        × (h.status ≡ 0
            → h.extras_len ≡ 4
            → (r.status ≡ ResponseCode.ok) × (r.cas ≡ h.cas) × (r.bytes ≡ h.body_len))
        × (h.status ≡ 0 → h.extras_len ≢ 4 → (r.status ≡ ResponseCode.invalid) × (r.bytes ≡ 0))
        × (h.status ≢ 0 → (r.status ≡ translate_status h.status) × (r.bytes ≡ h.body_len))
  unfolding deserialize_retrieve
  deserialize_retrieve-reply zlib = (
    _,
    with_header-reply h _ v,
    (λ e x. rw (e, x) (refl, refl, refl)),
    (λ e x. ground arith),
    (λ ne. ground arith),
  )
