-- ===== src/Cluster/Text/Set.antt =====
-- What the `set` command of include/mcache/proto/txt.h gets from a server.
use mcache_client.Prelude.{
  ℕ, ◌+◌, ◌^◌, ◌≤◌, ◌<◌, ◌≡◌, refl, [], ◌∷◌, ◌++◌, some, arith, Bytes, codes, starts_with, length,
}
use mcache_client.Error.{ResponseCode, returns}
use mcache_client.Io.Search.{split_first}
use mcache_client.Io.Tcp.{Peer, up_to}
use mcache_client.Proto.Key.{is_space}
use mcache_client.Proto.Options.{Options}
use mcache_client.Proto.Response.{single, single_response}
use mcache_client.Proto.Txt.Api.{stored_by}
use mcache_client.Proto.Txt.Lines.{read_stored-serialize_storage}
use mcache_client.Proto.Txt.Requests.{serialize_storage, line_end}
use mcache_client.Proto.Txt.Responses.{deserialize_storage}
use mcache_client.Cluster.Exchange.{Answers}
use mcache_client.Cluster.Text.{TextServer}

stored_line_ends : up_to line_end ((codes "STORED" ++ line_end) ++ []) ≡ some 8
unfolding up_to split_first starts_with codes
stored_line_ends = refl

stored_parsed : deserialize_storage (codes "STORED" ++ line_end) ≡ single ResponseCode.stored []
unfolding deserialize_storage starts_with codes
stored_parsed = refl

module _ {P : Type 0} (server : Peer P) (mem : TextServer server) where
  -- A `set` that is sent is answered with `stored`, and is held where no expiration was asked for.
  pub set-Answers :
      (c : ℕ) (key sent packet : Bytes) (opts : Options) (s : P)
      → serialize_storage (record { key = c ∷ key; value = sent; opts = opts }) (codes "set")
        ≡ returns packet
      → opts.cas ≡ 0
      → opts.flags < 2 ^ 32
      → opts.expiration < 2 ^ 64
      → length sent + 7 < 2 ^ 64
      → length sent ≤ mem.item_limit
      → (s' : P) × Answers server
          (stored_by (codes "set") (record { key = c ∷ key; value = sent; opts = opts }))
          s
          s'
          (single ResponseCode.stored [])
        × (opts.expiration ≡ 0 → mem.holds s' (c ∷ key) ≡ some (opts.flags, sent))
  unfolding stored_by codes
  set-Answers c key sent packet opts s serial no_cas small soon short fits =
      let got =
        read_stored-serialize_storage c b's' key (b'e' ∷ b't' ∷ []) sent packet opts serial
          (unfold is_space in (refl, (refl, (refl, tt)))) small soon (omega arith) (omega arith) in
      let (a, only, held) = mem.stores packet _ s got refl no_cas fits in
      (
        a.next,
        record {
          packet = packet;
          header = codes "STORED" ++ line_end;
          body = [];
          r = single ResponseCode.stored [];
          more = a.more;
          serial = serial;
          taken = a.taken;
          flows = a.flows;
          same = a.same;
          ends = stored_line_ends;
          parsed = rw stored_parsed refl;
          size = refl;
          complete = refl;
        },
        held,
      )
