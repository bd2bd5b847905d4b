-- ===== src/Cluster/Memcached/Stored.antt =====
-- What the `set` command of include/mcache/proto/binary.h gets from a server.
use mcache_client.Prelude.{
  ℕ, drop, drop_seam, [], ◌+◌, ◌^◌, ◌≤◌, ◌<◌, ◌≡◌, ◌≢◌, refl, sym, ◌∙◌, ap, true, [], append-nil,
  some, arith, Bytes, be, from_be, from_be-be, length-be, length, length-append, take, take_seam,
}
use mcache_client.Error.{ResponseCode, returns}
use mcache_client.Io.Tcp.{Peer}
use mcache_client.Proto.Options.{Options}
use mcache_client.Proto.Response.{
  SingleBodyResponse, single_body_response, single_retrieval_response,
}
use mcache_client.Proto.Zlib.{ZlibLibrary}
use mcache_client.Proto.Bin.Header.{header_bytes}
use mcache_client.Proto.Bin.Header.RoundTrip.{length-header_bytes}
use mcache_client.Proto.Bin.Commands.{StorageCommand, storage_command, serialize_storage, set_code}
use mcache_client.Proto.Bin.Api.{stored_by}
use mcache_client.Proto.Bin.Framing.Storage.{
  storage_extras, sent_value, read_request-serialize_storage,
}
use mcache_client.Proto.Bin.Responses.Statuses.{deserialize_plain-reply}
use mcache_client.Cluster.Exchange.{Answers}
use mcache_client.Cluster.Memcached.{Memcached}

module _ {P : Type 0} (server : Peer P) (mem : Memcached server) (zlib : ZlibLibrary) where
  extras_flags :
      (opts : Options)
      → opts.flags < 2 ^ 32
      → from_be (take 4 (storage_extras true opts)) ≡ opts.flags
  extras_flags opts h =
      rw (take_seam 4 (be 4 opts.flags) (be 4 opts.expiration) (length-be 4 opts.flags))
        (from_be-be 4 opts.flags h)

  extras_expiration :
      (opts : Options) → opts.expiration ≡ 0 → from_be (drop 4 (storage_extras true opts)) ≡ 0
  extras_expiration opts z =
      rw (drop_seam 4 (be 4 opts.flags) (be 4 opts.expiration) (length-be 4 opts.flags), z)
        (from_be-be 4 0 (ground arith))

  extras_eight : (opts : Options) → length (storage_extras true opts) ≡ 8
  extras_eight opts = omega (
    arith,
    length-append (be 4 opts.flags) (be 4 opts.expiration),
    length-be 4 opts.flags,
    length-be 4 opts.expiration,
  )

  -- A `set` that is sent is answered with `stored`; what is then held under the key is what was sent, and
  -- it is held where no expiration was asked for.
  pub set-Answers :
      (key value sent packet : Bytes) (opts : Options) (c : StorageCommand) (s : P)
      → storage_command zlib true key value opts ≡ returns c
      → sent_value zlib value opts ≡ returns sent
      → serialize_storage c set_code ≡ returns packet
      → key ≢ []
      → opts.cas ≡ 0
      → opts.flags < 2 ^ 32
      → length sent ≤ mem.item_limit
      → length sent + 258 < 2 ^ 32
      → (s' : P) × (r : SingleBodyResponse) × Answers server (stored_by set_code c) s s' r
        × (r.status ≡ ResponseCode.stored)
        × ((e : ℕ × Bytes) → mem.holds s' key ≡ some e → e ≡ (opts.flags, sent))
        × (opts.expiration ≡ 0 → mem.holds s' key ≡ some (opts.flags, sent))
  unfolding stored_by
  set-Answers key value sent packet opts c s made is_sent serial named no_cas small fits room =
      let got = rw append-nil at (
        read_request-serialize_storage zlib true key value opts c set_code sent packet [] made
          is_sent serial (ground arith) (omega arith) room) in
      let (h, a, only, held) =
        mem.stores packet _ s got refl no_cas (extras_eight opts) named fits in
      let (r, parsed, ok, other) = deserialize_plain-reply h a.reply ResponseCode.stored in
      let (status, bytes) = ok a.outcome in
      (
        a.next,
        r,
        record {
          packet = packet;
          header = header_bytes h;
          body = [];
          r = r;
          more = a.more;
          serial = serial;
          taken = a.taken;
          flows = a.flows;
          same = a.same;
          ends = sym (length-header_bytes h);
          parsed = parsed;
          size = bytes;
          complete = rw bytes refl;
        },
        status,
        (λ e there. only e there ∙ ap (λ n. (n, sent)) (extras_flags opts small)),
        (λ z. held (extras_expiration opts z) ∙ ap (λ n. some (n, sent)) (extras_flags opts small)),
      )
