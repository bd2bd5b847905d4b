-- ===== src/Tests/Pool.antt =====
-- include/mcache/pool and include/mcache/io: the theorems at small pools, addresses and datagrams.
use mcache_client.Prelude.{
  ℕ, ◌+◌, ◌*◌, ◌%◌, ◌^◌, ◌<◌, ◌≤◌, ◌≡◌, refl, ◌⊎◌, List, [], ◌∷◌, ◌++◌, some, Bytes, All, arith,
  length,
}
use mcache_client.Error.{returns}
use mcache_client.Pool.Ring.{Node, Ring, insert, lower_bound}
use mcache_client.Pool.Ring.Owner.{first_at_or_above}
use mcache_client.Pool.ConsistentHashing.{
  Config, make_pool, add_servers, add_virtual_nodes, choose, traverse,
}
use mcache_client.Pool.ConsistentHashing.Walk.{traverse-choose}
use mcache_client.Pool.ConsistentHashing.Servers.{IsRing, make_pool-IsRing}
use mcache_client.Pool.ConsistentHashing.Stability.{
  server_of, server_of-add_server, server_of_nearest,
}
use mcache_client.Pool.Modulo
use mcache_client.Io.Connections.Caching.{size, Call, run, run_bounded}
use mcache_client.Io.Udp.{Packet}

abbrev pub toy_hash : Bytes → ℕ → ℕ
toy_hash key seed = (length key * 10 + seed + 1) % 2 ^ 32

abbrev two_nodes_each : Config
two_nodes_each = record { virtual_nodes = 2 }

abbrev node : ℕ → ℕ → Node
node hash index = record { hash = hash; index = index }

abbrev addresses : List Bytes
addresses = (1 ∷ []) ∷ (1 ∷ 2 ∷ 3 ∷ []) ∷ []

abbrev two_servers : Ring
two_servers = node 11 0 ∷ node 22 0 ∷ node 31 1 ∷ node 62 1 ∷ []

abbrev three_servers : Ring
three_servers = node 11 0 ∷ node 21 2 ∷ node 22 0 ∷ node 31 1 ∷ node 42 2 ∷ node 62 1 ∷ []

two_servers-made : make_pool toy_hash two_nodes_each addresses ≡ returns two_servers
unfolding make_pool add_servers add_virtual_nodes insert
two_servers-made = refl

three_servers-made :
    make_pool toy_hash two_nodes_each (addresses ++ (1 ∷ 2 ∷ []) ∷ []) ≡ returns three_servers
unfolding make_pool add_servers add_virtual_nodes insert
three_servers-made = refl

traverse-choose_example :
    traverse 9 two_servers (choose toy_hash two_servers (7 ∷ 8 ∷ []))
    ≡ 0 ∷ 1 ∷ 1 ∷ 0 ∷ 0 ∷ 1 ∷ 1 ∷ []
unfolding lower_bound
traverse-choose_example = traverse-choose toy_hash two_servers (7 ∷ 8 ∷ []) 9 (ground arith)

make_pool-IsRing_example : IsRing 2 two_servers
make_pool-IsRing_example =
    make_pool-IsRing toy_hash two_nodes_each addresses two_servers two_servers-made

server_of-add_server_example :
    (server_of toy_hash three_servers (5 ∷ []) ≡ server_of toy_hash two_servers (5 ∷ []))
    ⊎ (server_of toy_hash three_servers (5 ∷ []) ≡ some 2)
server_of-add_server_example =
    server_of-add_server toy_hash two_nodes_each addresses (1 ∷ 2 ∷ []) (5 ∷ []) two_servers
      three_servers two_servers-made three_servers-made

server_of_nearest_example :
    (server_of toy_hash two_servers (5 ∷ []) ≡ some 0)
    × (11 ≤ 11)
    × All (λ m. 11 ≤ m.hash → 11 ≤ m.hash) two_servers
server_of_nearest_example =
    server_of_nearest toy_hash 2 two_servers (5 ∷ []) (node 11 0) make_pool-IsRing_ring found
  where
    make_pool-IsRing_ring : IsRing 2 two_servers
    make_pool-IsRing_ring =
        make_pool-IsRing toy_hash two_nodes_each addresses two_servers two_servers-made

    found : first_at_or_above 11 two_servers ≡ some (node 11 0)
    found = unfold first_at_or_above in refl

traverse-choose_once_example :
    (i : ℕ) × (i < 2) × (Modulo.traverse 2 (Modulo.choose toy_hash 2 (5 ∷ [])) ≡ i ∷ [])
traverse-choose_once_example =
    Modulo.traverse-choose_once toy_hash addresses 2 2 (5 ∷ []) (unfold Modulo.make_pool in refl)
      (ground arith) (ground arith)

abbrev calls : List (Call ℕ)
calls = Call.returns_back 5 ∷ Call.returns_back 6 ∷ Call.picks (returns 9) ∷ []

abbrev one_connection : List ℕ
one_connection = 5 ∷ []

run_bounded_example : size (run 1 calls one_connection) ≤ 1
run_bounded_example = run_bounded 1 calls one_connection (unfold size in ground arith)

abbrev plain_address : Bytes
plain_address = b'h' ∷ b':' ∷ b'1' ∷ []

abbrev first_of_two : Packet
first_of_two = record { id = 7; seq = 0; count = 2 }

abbrev pub datagram : ℕ → ℕ → Bytes
datagram seq octet = 7 ∷ 0 ∷ 0 ∷ seq ∷ 0 ∷ 2 ∷ 0 ∷ 0 ∷ octet ∷ []
