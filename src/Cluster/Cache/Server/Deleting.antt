-- ===== src/Cluster/Cache/Server/Deleting.antt =====
-- What the `delete` command of include/mcache/proto/binary.h gets from a server.
use mcache_client.Prelude.{ℕ, ◌≡◌, ◌≢◌, refl, sym, ◌∙◌, [], none, some, arith, Bytes}
use mcache_client.Error.{ResponseCode, returns}
use mcache_client.Io.Tcp.{Peer}
use mcache_client.Proto.Response.{
  SingleBodyResponse, single_body_response, single_retrieval_response, set_body_default,
}
use mcache_client.Proto.Bin.Header.{header_bytes}
use mcache_client.Proto.Bin.Header.RoundTrip.{length-header_bytes}
use mcache_client.Proto.Bin.Commands.{serialize_key, serialize_delete, key_command, delete_code}
use mcache_client.Proto.Bin.Api.{delete_command}
use mcache_client.Proto.Bin.Responses.{translate_status, deserialize_plain}
use mcache_client.Proto.Bin.Responses.Statuses.{with_header-reply, deserialize_plain-reply}
use mcache_client.Cluster.Exchange.{Answers}
use mcache_client.Cluster.Memcached.{Memcached}
use mcache_client.Cluster.Cache.Server.{Caching, asks, body_completed}

module _ {P : Type 0} (server : Peer P) (mem : Memcached server) (cache : Caching server mem) where
  -- A `delete` is answered with `deleted` or `not_found`, and behind it the server holds nothing.
  pub delete-Answers :
      (key packet : Bytes) (s : P) (e : ℕ × Bytes)
      → key ≢ []
      → serialize_key (key_command key) delete_code ≡ returns packet
      → mem.holds s key ≡ some e
      → (s' : P) × (r : SingleBodyResponse) × Answers server (delete_command key) s s' r
        × (r.status ≡ ResponseCode.deleted)
        × (mem.holds s' key ≡ none)
  unfolding delete_command serialize_delete
  delete-Answers key packet s e named serial held =
      let (h, a, gone) =
        cache.deletes packet key s e (asks key packet delete_code (ground arith) named serial)
          held in
      let (r, parsed, ok, other) = deserialize_plain-reply h a.reply ResponseCode.deleted in
      let (status, bytes) = ok a.outcome in
      (
        a.next,
        r,
        record {
          packet = packet;
          header = header_bytes h;
          body = [];
          r = r;
          more = a.more;
          serial = serial;
          taken = a.taken;
          flows = a.flows;
          same = a.same;
          ends = sym (length-header_bytes h);
          parsed = parsed;
          size = bytes;
          complete = rw bytes refl;
        },
        status,
        gone,
      )

  pub delete-misses :
      (key packet : Bytes) (s : P)
      → key ≢ []
      → serialize_key (key_command key) delete_code ≡ returns packet
      → mem.holds s key ≡ none
      → (s' : P) × (r : SingleBodyResponse) × Answers server (delete_command key) s s' r
        × (r.status ≡ ResponseCode.not_found)
        × (mem.holds s' key ≡ none)
  unfolding delete_command serialize_delete deserialize_plain translate_status
  delete-misses key packet s named serial lacking =
      let (h, body, a, gone) =
        cache.lacks packet key s (asks key packet delete_code (ground arith) named serial)
          lacking in
      let r : SingleBodyResponse = record {
        status = ResponseCode.not_found;
        aux = [];
        bytes = h.body_len;
        set_body_callback = set_body_default;
      } in
      let (r', complete, same) = body_completed r body refl in
      (
        a.next,
        r',
        record {
          packet = packet;
          header = header_bytes h;
          body = body;
          r = r;
          more = a.more;
          serial = serial;
          taken = a.taken;
          flows = a.flows;
          same = a.same;
          ends = sym (length-header_bytes h);
          parsed = with_header-reply h _ a.reply ∙ rw (a.outcome) refl;
          size = a.size;
          complete = complete;
        },
        same,
        gone,
      )
