-- ===== src/Tests/Fresh.antt =====
-- include/mcache/client.h: a new client of the two servers that keep what is set.
use mcache_client.Prelude.{◌≡◌, refl, true, [], ◌∷◌, codes, arith}
use mcache_client.Error.{returns}
use mcache_client.Client as Client
use mcache_client.Cluster.{make_nodes}
use mcache_client.Cluster.Whole.{Whole, new_client}
use mcache_client.Cluster.Whole.Fresh.{GetsBack, new_client-set-get}
use mcache_client.Io.Address.{parse_address}
use mcache_client.Pool.ConsistentHashing as ConsistentHashing
use mcache_client.Pool.ConsistentHashing.{make_pool, add_servers, add_virtual_nodes}
use mcache_client.Pool.Ring.{insert}
use mcache_client.Server.Proxy as Proxy
use mcache_client.Tests.Cluster.{
  Items, keeper, keeper_memcached, addresses, packed, letter-Storable,
}
use mcache_client.Tests.Pool.{toy_hash}
use mcache_client.Tests.Proto.{storing, storing-Inflates, short_key}

abbrev pub one_node_each : ConsistentHashing.Config
one_node_each = record { virtual_nodes = 1 }

abbrev pub client : Whole Items 2
client = record {
  ring = record { hash = 111; index = 0 } ∷ record { hash = 121; index = 1 } ∷ [];
  world = record { nodes = make_nodes Items 2 [] addresses; readings = 0 };
}

pub client_made : new_client toy_hash true one_node_each [] addresses ≡ returns client
unfolding new_client make_pool add_servers add_virtual_nodes insert codes
client_made = refl

new_client-set-get_example :
    GetsBack keeper keeper_memcached 2 Proxy.default_config
      (λ n. n)
      Client.default_config
      toy_hash
      storing
      short_key
      (65 ∷ [])
      packed
      client
new_client-set-get_example =
    new_client-set-get keeper keeper_memcached 2 Proxy.default_config (λ n. n) Client.default_config
      toy_hash storing one_node_each [] addresses true client short_key (65 ∷ []) packed client_made
      (
        ((codes "first", codes "11211"), unfold parse_address codes in refl),
        (((codes "second", codes "11211"), unfold parse_address codes in refl), tt),
      )
      (ground arith) (ground arith) (ground arith) letter-Storable refl storing-Inflates
