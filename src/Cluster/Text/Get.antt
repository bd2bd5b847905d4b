-- ===== src/Cluster/Text/Get.antt =====
-- What the `get` command of include/mcache/proto/txt.h gets from a server.
use mcache_client.Prelude.{
  ℕ, ◌+◌, ◌-◌, ◌%◌, ◌^◌, ◌≤◌, ◌<◌, ◌≡◌, refl, sym, ◌∙◌, ap, true, false, inl, inr, Bool-cases, [],
  ◌∷◌, ◌++◌, none, some, arith, ◌==◌, Bytes, All, codes, length, length-append, take_seam,
}
use mcache_client.Error.{ResponseCode, returns, returns_injective}
use mcache_client.Io.Tcp.{Peer, up_to}
use mcache_client.Proto.Command.Steps.{completed}
use mcache_client.Proto.Key.{is_space, IsKeyOctet, check_key, check_key-returns}
use mcache_client.Proto.Options.{Options, is_compressed}
use mcache_client.Proto.Response.{
  SingleRetrievalResponse, single_retrieval_response, set_retrieval_body,
}
use mcache_client.Proto.Zlib.{ZlibLibrary, Inflates, compress, uncompress-compress}
use mcache_client.Proto.Bin.Framing.Storage.{sent_value}
use mcache_client.Proto.Txt.Api.{retrieved_by, get_command}
use mcache_client.Proto.Txt.Requests.{serialize_retrieve, line_end}
use mcache_client.Proto.Txt.Responses.{deserialize_retrieve, set_retrieved_body}
use mcache_client.Proto.Txt.Retrievals.{
  read_retrieval-serialize_retrieve, value_words, value_line_words, split_first-value_words,
}
use mcache_client.Proto.Txt.Values.{
  footer, set_retrieved_body-footer, deserialize_retrieve-value_line,
}
use mcache_client.Cluster.Exchange.{Answers}
use mcache_client.Cluster.Text.{TextServer}

module _ (zlib : ZlibLibrary) where
  -- Of a compressed value with its footer the client gets what was compressed.
  set_retrieved_body_inflated :
      (flags : ℕ) (value sent : Bytes)
      → Inflates zlib
      → is_compressed flags ≡ true
      → length value < 2 ^ 32
      → length sent + 7 < 2 ^ 64
      → compress zlib value ≡ returns sent
      → set_retrieved_body zlib flags [] (sent ++ footer) ≡ returns (flags, value)
  unfolding set_retrieved_body
  set_retrieved_body_inflated flags value sent inf packed small short made =
      let whole : length (sent ++ footer) ≡ length sent + 7 = length-append sent footer in
      let size : (length sent + 7 + (2 ^ 64 - 7)) % 2 ^ 64 ≡ length sent = omega arith in
      rw
        (
          whole,
          packed,
          size,
          uncompress-compress zlib inf value sent (sent ++ footer) 0 (length sent) small made
              (take_seam (length sent) sent footer refl),
        )
        refl

  -- What the client makes of a hit: the caller's value, compressed for the server or not.
  found_value :
      (value sent : Bytes) (opts : Options)
      → Inflates zlib
      → sent_value zlib value opts ≡ returns sent
      → length value < 2 ^ 32
      → length sent + 7 < 2 ^ 64
      → set_retrieved_body zlib opts.flags [] (sent ++ footer) ≡ returns (opts.flags, value)
  found_value value sent opts inf is_sent small short =
      elim (Bool-cases (is_compressed opts.flags)) [
        | inl packed ↦
            set_retrieved_body_inflated opts.flags value sent inf packed small short
              (rw packed at is_sent)
        | inr plain ↦
            let same : value ≡ sent = returns_injective (rw plain at is_sent) in
            set_retrieved_body-footer zlib opts.flags [] sent plain short
            ∙ ap (λ v. returns (opts.flags, v)) (sym same)
      ]

  abbrev found_response : ℕ → ℕ → Bytes → SingleRetrievalResponse
  found_response flags bytes value = record {
    status = ResponseCode.ok;
    aux = value;
    flags = flags;
    cas = 0;
    bytes = bytes;
    set_body_callback = set_retrieved_body zlib;
  }

  hit_ends :
      (key : Bytes) (flags bytes : ℕ) (body : Bytes)
      → All IsKeyOctet key
      → up_to line_end ((value_words key flags bytes ++ line_end) ++ body)
        ≡ some (length (value_words key flags bytes ++ line_end))
  unfolding up_to
  hit_ends key flags bytes body a =
      rw (split_first-value_words key flags bytes body a)
        (ap some (sym (length-append (value_words key flags bytes) line_end)))

  module _ {P : Type 0} (server : Peer P) (mem : TextServer server) where
    hit_completed :
        (flags : ℕ) (value sent : Bytes)
        → set_retrieved_body zlib flags [] (sent ++ footer) ≡ returns (flags, value)
        → completed (found_response flags (length sent + 7) []) (sent ++ footer)
          ≡ returns (found_response flags (length sent + 7) value)
    unfolding set_retrieval_body
    hit_completed flags value sent e =
        let some_body : (length sent + 7 == 0) ≡ false = ground arith in rw (some_body, e) refl

    -- A `get` of a key that the server holds is answered with the value and the flags of its `set`.
    pub get-Answers :
        (c : ℕ) (key value sent packet : Bytes) (opts : Options) (s : P)
        → Inflates zlib
        → sent_value zlib value opts ≡ returns sent
        → serialize_retrieve (c ∷ key) (codes "get") ≡ returns packet
        → check_key (c ∷ key) ≡ returns tt
        → opts.flags < 2 ^ 32
        → length value < 2 ^ 32
        → length sent + 7 < 2 ^ 64
        → length sent ≤ mem.item_limit
        → mem.holds s (c ∷ key) ≡ some (opts.flags, sent)
        → (s' : P) × (r : SingleRetrievalResponse) × Answers server
            (get_command zlib (c ∷ key))
            s
            s'
            r
          × (r.status ≡ ResponseCode.ok)
          × (r.aux ≡ value)
          × (r.flags ≡ opts.flags)
    unfolding get_command retrieved_by codes
    get-Answers c key value sent packet opts s inf is_sent serial passes small short room fits
          held =
        let octets = ((check_key-returns (c ∷ key)).0 passes).1 in
        let got =
          read_retrieval-serialize_retrieve c b'g' key (b'e' ∷ b't' ∷ []) packet serial
            (unfold is_space in (refl, (refl, (refl, tt)))) in
        let a = mem.finds packet (c ∷ key) s opts.flags sent got held fits in
        let words = value_words (c ∷ key) opts.flags (length sent) in
        let line = value_line_words (c ∷ key) opts.flags (length sent) in
        (
          a.next,
          found_response opts.flags (length sent + 7) value,
          record {
            packet = packet;
            header = words ++ line_end;
            body = sent ++ footer;
            r = found_response opts.flags (length sent + 7) [];
            more = a.more;
            serial = serial;
            taken = a.taken;
            flows = a.flows;
            same = a.same ∙ ap (λ l. l ++ (sent ++ footer)) line;
            ends = hit_ends (c ∷ key) opts.flags (length sent) (sent ++ footer) octets;
            parsed = ap returns (
                ap (deserialize_retrieve zlib) (sym line)
                ∙ deserialize_retrieve-value_line zlib c key opts.flags (length sent) none octets
                    small room (omega arith));
            size = sym (length-append sent footer);
            complete =
                hit_completed opts.flags value sent
                  (found_value value sent opts inf is_sent short room);
          },
          refl,
          refl,
          refl,
        )
