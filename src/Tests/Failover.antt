-- ===== src/Tests/Failover.antt =====
-- include/mcache/client.h: two servers, the first of which refuses every connection.
use mcache_client.Prelude.{
  ℕ, ◌≡◌, ◌≢◌, refl, Bool, true, false, [], ◌∷◌, ◌++◌, some, arith, Bytes, codes, starts_with,
  get_elem?,
}
use mcache_client.Error.{returns}
use mcache_client.Client as Client
use mcache_client.Client.{run}
use mcache_client.Cluster.{World, Node, cluster}
use mcache_client.Cluster.Exchange.{Answers}
use mcache_client.Cluster.Failover.{Counted, Refuses, run_fails_over}
use mcache_client.Cluster.Healthy.{IsUp}
use mcache_client.Io.Address.{parse_address}
use mcache_client.Io.Search.{split_first}
use mcache_client.Io.Tcp.{Connecting, Peer, connected, refused, written, up_to}
use mcache_client.Proto.Response.{single_body_response, set_single_body, set_body_default}
use mcache_client.Server.Proxy as Proxy
use mcache_client.Tests.Tcp.{line_end, reply, answer, asking}

abbrev taking : Bool → Connecting
taking true = connected []
taking false = refused (codes "Connection refused")

abbrev half : Peer Bool
half = record { connect = taking; accept = λ packet s. (s, written reply) }

abbrev fresh : Bytes → Bool → Node Bool 2
fresh addr s = record {
  addr = addr;
  proxy = record { shared = Proxy.new_shared; connections = [] };
  peer = s;
}

abbrev world : World Bool 2
world = record {
  nodes = fresh (codes "first:11211") false ∷ fresh (codes "second:11211") true ∷ [];
  readings = 0;
}

first-Refuses : Refuses half 2 Proxy.default_config (λ n. n) 0 world
first-Refuses = record {
  node = fresh (codes "first:11211") false;
  there = refl;
  alive = refl;
  free = refl;
  unconnected = refl;
  dest = (codes "first", codes "11211");
  address = unfold parse_address codes in refl;
  msg = codes "Connection refused";
  refusal = refl;
}

second-IsUp : IsUp half 2 Proxy.default_config (λ n. n) 1 true world
second-IsUp = (
  record {
    node = fresh (codes "second:11211") true;
    there = refl;
    idle = tt;
    dest = (codes "second", codes "11211");
    address = unfold parse_address codes in refl;
    state = refl;
  },
  refl,
)

asking-Answers : Answers half asking true true (record answer { aux = codes "AB" })
asking-Answers = record {
  packet = codes "ask";
  header = codes "OK" ++ line_end;
  body = codes "AB";
  r = answer;
  more = reply;
  serial = refl;
  taken = refl;
  flows = tt;
  same = unfold codes in refl;
  ends = unfold codes up_to split_first starts_with in refl;
  parsed = refl;
  size = unfold codes in refl;
  complete = unfold codes set_single_body set_body_default in refl;
}

run_fails_over_example :
    let after =
      run
        (cluster half 2 Proxy.default_config (λ n. n))
        Client.default_config
        asking
        false
        (0 ∷ 1 ∷ [])
        world in
    (after.1 ≡ returns (record answer { aux = codes "AB" }))
    × IsUp half 2 Proxy.default_config (λ n. n) 1 true after.0
    × ((n : Node Bool 2) × (get_elem? after.0.nodes 0 ≡ some n)
        × Counted half 2 Proxy.default_config (λ n. n) first-Refuses.node n)
    × ((k : ℕ) → 0 ≢ k → 1 ≢ k → get_elem? after.0.nodes k ≡ get_elem? world.nodes k)
run_fails_over_example =
    run_fails_over half 2 Proxy.default_config (λ n. n) asking Client.default_config false 0 1 []
      world true true (record answer { aux = codes "AB" }) first-Refuses second-IsUp refl
      asking-Answers ((λ e. cc), (λ e. cc)) (ground arith) (ground arith) (ground arith)
