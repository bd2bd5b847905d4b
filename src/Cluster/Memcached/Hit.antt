-- ===== src/Cluster/Memcached/Hit.antt =====
-- What the `get` command of include/mcache/proto/binary.h gets from a server.
use mcache_client.Prelude.{
  ℕ, [], ◌^◌, ◌≤◌, ◌<◌, ◌≡◌, ◌≢◌, refl, sym, ◌∙◌, ap, false, Bool-cases, inl, inr, [], append-nil,
  some, arith, ◌==◌, Bytes, be, length-be, length, length-append,
}
use mcache_client.Error.{ResponseCode, returns, returns_injective}
use mcache_client.Io.Tcp.{Peer}
use mcache_client.Proto.Command.Steps.{completed}
use mcache_client.Proto.Options.{Options, is_compressed}
use mcache_client.Proto.Response.{
  SingleRetrievalResponse, single_body_response, single_retrieval_response, set_retrieval_body,
}
use mcache_client.Proto.Zlib.{ZlibLibrary, Inflates}
use mcache_client.Proto.Bin.Header.{Header, header_bytes}
use mcache_client.Proto.Bin.Header.RoundTrip.{length-header_bytes}
use mcache_client.Proto.Bin.Commands.{serialize_key, key_command, get_code}
use mcache_client.Proto.Bin.Api.{get_command}
use mcache_client.Proto.Bin.Framing.Keyed.{read_request-serialize_key}
use mcache_client.Proto.Bin.Framing.Storage.{sent_value}
use mcache_client.Proto.Bin.Responses.{set_retrieved_body, deserialize_retrieve}
use mcache_client.Proto.Bin.Responses.Bodies.{
  hit_body, set_retrieved_body_plain, set_retrieved_body_compressed,
}
use mcache_client.Proto.Bin.Responses.Statuses.{IsReply, with_header-reply}
use mcache_client.Cluster.Exchange.{Answers}
use mcache_client.Cluster.Memcached.{Memcached}

module _ {P : Type 0} (server : Peer P) (mem : Memcached server) (zlib : ZlibLibrary) where
  -- What the client makes of a hit: the caller's value, compressed for the server or not.
  found_value :
      (value sent : Bytes) (opts : Options)
      → Inflates zlib
      → sent_value zlib value opts ≡ returns sent
      → opts.flags < 2 ^ 32
      → length value < 2 ^ 32
      → set_retrieved_body zlib 0 0 [] (hit_body opts.flags [] sent) ≡ returns (opts.flags, value)
  found_value value sent opts inf is_sent small short =
      elim (Bool-cases (is_compressed opts.flags)) [
        | inl packed ↦
            set_retrieved_body_compressed zlib opts.flags 0 [] sent [] inf value small packed short
              (rw packed at is_sent)
        | inr plain ↦
            let same : value ≡ sent = returns_injective (rw plain at is_sent) in
            set_retrieved_body_plain zlib opts.flags 0 [] sent [] small plain
            ∙ ap (λ v. returns (opts.flags, v)) (sym same)
      ]

  abbrev found_response : ℕ → ℕ → Header → Bytes → SingleRetrievalResponse
  found_response key_len flags h value = record {
    status = ResponseCode.ok;
    aux = value;
    flags = flags;
    cas = h.cas;
    bytes = h.body_len;
    set_body_callback = set_retrieved_body zlib key_len;
  }

  hit_parsed :
      (h : Header)
      → IsReply h
      → h.status ≡ 0
      → h.extras_len ≡ 4
      → h.key_len ≡ 0
      → deserialize_retrieve zlib (header_bytes h) ≡ returns (found_response 0 0 h [])
  unfolding deserialize_retrieve
  hit_parsed h v ok four none = with_header-reply h _ v ∙ rw (ok, four, none) refl

  hit_completed :
      (h : Header) (flags : ℕ) (value sent : Bytes)
      → set_retrieved_body zlib 0 0 [] (hit_body flags [] sent) ≡ returns (flags, value)
      → h.body_len ≡ length (hit_body flags [] sent)
      → completed (found_response 0 0 h []) (hit_body flags [] sent)
        ≡ returns (found_response 0 flags h value)
  unfolding set_retrieval_body
  hit_completed h flags value sent e size =
      let some_body : (h.body_len == 0) ≡ false =
        ground (arith, size, length-append (be 4 flags) sent, length-be 4 flags) in
      rw (some_body, e) refl

  -- A `get` of a key that the server holds is answered with the value and the flags of its `set`.
  pub get-Answers :
      (key value sent packet : Bytes) (opts : Options) (s : P)
      → Inflates zlib
      → sent_value zlib value opts ≡ returns sent
      → serialize_key (key_command key) get_code ≡ returns packet
      → key ≢ []
      → opts.flags < 2 ^ 32
      → length value < 2 ^ 32
      → mem.holds s key ≡ some (opts.flags, sent)
      → length sent ≤ mem.item_limit
      → (s' : P) × (r : SingleRetrievalResponse) × Answers server (get_command zlib key) s s' r
        × (r.status ≡ ResponseCode.ok)
        × (r.aux ≡ value)
        × (r.flags ≡ opts.flags)
  unfolding get_command
  get-Answers key value sent packet opts s inf is_sent serial named small short held fits =
      let got =
        rw append-nil at
          (read_request-serialize_key key packet [] get_code (ground arith) serial) in
      let (h, four, none, a) =
        mem.finds packet _ s opts.flags sent got refl named refl refl held fits in
      (
        a.next,
        found_response 0 opts.flags h value,
        record {
          packet = packet;
          header = header_bytes h;
          body = hit_body opts.flags [] sent;
          r = found_response 0 0 h [];
          more = a.more;
          serial = serial;
          taken = a.taken;
          flows = a.flows;
          same = a.same;
          ends = sym (length-header_bytes h);
          parsed = hit_parsed h a.reply a.outcome four none;
          size = a.size;
          complete =
              hit_completed h opts.flags value sent
                (found_value value sent opts inf is_sent small short) a.size;
        },
        refl,
        refl,
        refl,
      )
