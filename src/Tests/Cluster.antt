-- ===== src/Tests/Cluster.antt =====
-- include/mcache/server-proxies.h: two servers that keep what is set in a list, and a client of them.
use mcache_client.Prelude.{
  ℕ, ◌+◌, ◌≡◌, ◌≢◌, refl, true, List, [], ◌∷◌, append-nil, Option, none, some, ◌==◌, if◌then◌else◌,
  arith, sym, ◌∙◌, Bytes, codes, from_be, be, take, length, length-append, length-be, get_elem?,
}
use mathlib.Core.Option.{some-injective}
use mcache_client.Error.{Result, returns, throws}
use mcache_client.Client as Client
use mcache_client.Client.{Servers}
use mcache_client.Client.Operations.{set, get}
use mcache_client.Cluster.{World, make_nodes, cluster}
use mcache_client.Cluster.Cache.{same_bytes, same_bytes_refl}
use mcache_client.Cluster.Healthy.{IsUp}
use mcache_client.Cluster.Memcached.{Memcached}
use mcache_client.Cluster.RoundTrip.{Storable, set-get}
use mcache_client.Client.{run}
use mcache_client.Io.Address.{parse_address}
use mcache_client.Io.Tcp.{Peer, Writing, chunk, connected, failed, written}
use mcache_client.Proto.Key.{check_key, is_invalid}
use mcache_client.Proto.Options.{Options, is_compressed}
use mcache_client.Proto.Zlib.{compress, le32}
use mcache_client.Proto.Response.{single_body_response, single_retrieval_response}
use mcache_client.Proto.Bin.Api.{get_command, set_command}
use mcache_client.Proto.Bin.Header.{header_bytes}
use mcache_client.Proto.Bin.Framing.{Request, read_request}
use mcache_client.Proto.Bin.Responses.Bodies.{hit_body}
use mcache_client.Server.Proxy as Proxy
use mcache_client.Tests.Proto.{storing, storing-Inflates, reply, reply-IsReply, short_key}

abbrev pub Items : Type 0
Items = List (Bytes × (ℕ × Bytes))

unfoldable pub look_up : Items → Bytes → Option (ℕ × Bytes)
look_up [] key = none
look_up ((k, v) ∷ rest) key =
    let later = look_up rest key in if same_bytes k key then some v else later

abbrev pub answer : Items → Option (ℕ × Bytes) → Items × Writing
answer s none = (s, written (chunk (header_bytes (reply 1 0 0)) ∷ []))
answer s (some (flags, value)) = (
  s,
  written
      (chunk (header_bytes (reply 0 4 (4 + length value))) ∷ chunk (hit_body flags [] value) ∷ []),
)

unfoldable pub forget : Bytes → Items → Items
forget key [] = []
forget key ((k, v) ∷ rest) =
    let later = forget key rest in if same_bytes k key then later else (k, v) ∷ later

abbrev pub removal : Bytes → Items → Option (ℕ × Bytes) → Items × Writing
removal key s none = (forget key s, written (chunk (header_bytes (reply 1 0 0)) ∷ []))
removal key s (some v) = (forget key s, written (chunk (header_bytes (reply 0 0 0)) ∷ []))

abbrev pub serve : Request → Items → Items × Writing
serve q s =
    if q.opcode == 1
    then (
      (q.key, (from_be (take 4 q.extras), q.value)) ∷ s,
      written (chunk (header_bytes (reply 0 0 0)) ∷ []),
    )
    else if q.opcode == 4
    then removal q.key s (look_up s q.key)
    else answer s (look_up s q.key)

abbrev serve_packet : Items → Result (Request × Bytes) → Items × Writing
serve_packet s (returns (q, rest)) = serve q s
serve_packet s (throws e) = (s, failed [])

abbrev pub keeper : Peer Items
keeper = record {
  connect = λ s. connected [];
  accept = λ packet s. serve_packet s (read_request packet);
}

pub length-hit : (flags : ℕ) (value : Bytes) → 4 + length value ≡ length (hit_body flags [] value)
length-hit flags value = omega (arith, length-append (be 4 flags) value, length-be 4 flags)

unfoldable pub keeper_memcached : Memcached keeper
unfolding look_up
keeper_memcached = record {
  item_limit = 1000;
  holds = look_up;
  listens = λ s. refl;
  stores = λ packet q s got code no_cas eight named fits. (
    reply 0 0 0,
    record {
      next = (q.key, (from_be (take 4 q.extras), q.value)) ∷ s;
      more = chunk (header_bytes (reply 0 0 0)) ∷ [];
      taken = rw (got, code) refl;
      flows = tt;
      same = refl;
      reply = reply-IsReply 0 0 0 (ground arith) (ground arith) (ground arith);
      size = refl;
      outcome = refl;
    },
    (λ e there. some-injective _ _ (sym there ∙ rw (same_bytes_refl q.key) refl)),
    (λ z. rw (same_bytes_refl q.key) refl),
  );
  finds = λ packet q s flags value got code named bare empty held fits. (
    reply 0 4 (4 + length value),
    refl,
    refl,
    record {
      next = s;
      more =
          chunk (header_bytes (reply 0 4 (4 + length value)))
          ∷ chunk (hit_body flags [] value)
          ∷ [];
      taken = rw (got, code, held) refl;
      flows = tt;
      same = rw append-nil refl;
      reply = reply-IsReply 0 4 (4 + length value) (ground arith) (ground arith) (omega arith);
      size = length-hit flags value;
      outcome = refl;
    },
  );
}

abbrev pub addresses : List Bytes
addresses = codes "first:11211" ∷ codes "second:11211" ∷ []

abbrev pub two_servers : World Items 2
two_servers = record { nodes = make_nodes Items 2 [] addresses; readings = 0 }

pub second-IsUp : IsUp keeper 2 Proxy.default_config (λ n. n) 1 [] two_servers
unfolding make_nodes codes
second-IsUp = (
  record {
    node = record {
      addr = codes "second:11211";
      proxy = record { shared = Proxy.new_shared; connections = [] };
      peer = [];
    };
    there = refl;
    idle = tt;
    dest = (codes "second", codes "11211");
    address = unfold parse_address codes in refl;
    state = refl;
  },
  refl,
)

abbrev pub from_second : Bytes → List ℕ
from_second key = 1 ∷ 0 ∷ 1 ∷ 0 ∷ []

abbrev pub packed : Options
packed = record { expiration = 0; flags = 65536; cas = 0 }

pub letter-Storable : Storable keeper_memcached.item_limit storing short_key (65 ∷ []) packed
unfolding keeper_memcached
letter-Storable = record {
  sent = 1 ∷ 0 ∷ 0 ∷ 0 ∷ 65 ∷ [];
  is_sent = unfold is_compressed compress le32 in refl;
  passes = unfold check_key is_invalid in refl;
  named = λ e. cc;
  no_cas = refl;
  flags_fit = ground arith;
  value_fits = ground arith;
  sent_fits = ground arith;
  has_room = ground arith;
}

abbrev pub two : Servers
two = cluster keeper 2 Proxy.default_config (λ n. n)

set-get_example :
    let after =
      set two Client.default_config from_second
        (set_command storing short_key (65 ∷ []) packed)
        two_servers in
    (after.1 ≡ returns tt)
    × ((get two Client.default_config from_second (get_command storing short_key) after.0).1
        ≡ returns (record { found = true; text = 65 ∷ []; flags = 65536; cas = 0 }))
    × ((j : ℕ) → 1 ≢ j → get_elem? after.0.nodes j ≡ get_elem? two_servers.nodes j)
set-get_example =
    set-get keeper keeper_memcached 2 Proxy.default_config (λ n. n) Client.default_config
      from_second storing short_key (65 ∷ []) packed 1 (0 ∷ 1 ∷ 0 ∷ []) two_servers letter-Storable
      [] storing-Inflates refl (ground arith) (ground arith) refl second-IsUp
