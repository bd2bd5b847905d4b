-- ===== src/Cluster.antt =====
-- include/mcache/server-proxies.h: the proxies of all servers, each with its TCP connections and the
-- server at their other end. They are what the client runs its commands on. The pool of connections is
-- the caching one, as in mcache::thread of include/mcache/mcache.h.
pub mod Cache
pub mod Exchange
pub mod Failover
pub mod Frame
pub mod Healthy
pub mod Memcached
pub mod Operate
pub mod RoundTrip
pub mod Text
pub mod Whole
use mcache_client.Prelude.{
  ℕ, suc, ◌+◌, Bool, true, false, List, [], ◌∷◌, Option, none, some, Bytes, get_elem?, set, map,
}
use mcache_client.Error.{Exception, Result, returns, throws}
use mcache_client.Client.{Servers}
use mcache_client.Io.Connections.{ConnectionPool}
use mcache_client.Io.Connections.Caching.{caching_pool}
use mcache_client.Io.Tcp.{Peer, Tcp, connect, tcp}
use mcache_client.Proto.Command as Command
use mcache_client.Proto.Command.{Command}
use mcache_client.Proto.Response.{IsResponse}
use mcache_client.Server.Proxy as Proxy
use mcache_client.Server.Proxy.{Proxy, new_shared}

module _ (P : Type 0) (max : ℕ) where
  abbrev pub pool : ConnectionPool (Tcp P)
  pool = caching_pool (Tcp P) max

  -- A proxy with the server that it speaks to.
  pub record Node : Type 0 where
    pub addr : Bytes
    pub proxy : Proxy pool
    pub peer : P

  -- All of them, and how many calls were made: each reads the clock anew.
  pub record World : Type 0 where
    pub nodes : List Node
    pub readings : ℕ

  -- The constructor makes a proxy for each address, in the order of the list.
  unfoldable pub make_nodes : P → List Bytes → List Node
  make_nodes s [] = []
  make_nodes s (addr ∷ rest) =
      record { addr = addr; proxy = record { shared = new_shared; connections = [] }; peer = s }
      ∷ make_nodes s rest

-- `clock` gives the time of each reading.
module _ {P : Type 0} (server : Peer P) (max : ℕ) (cfg : Proxy.Config) (clock : ℕ → ℕ) where
  -- A call on the proxy at an index. Outside the array C++ defines no behaviour.
  abbrev pub on_node :
      {A : Type 0} → ℕ → (ℕ → Node P max → Node P max × A) → A → World P max → World P max × A
  on_node idx call fault w = elim (get_elem? w.nodes idx) [
    | none ↦ (w, fault)
    | some n ↦
        let (n', a) = call (clock w.readings) n in
        (record { nodes = set w.nodes idx n'; readings = suc w.readings }, a)
  ]

  unfoldable pub node_callable : ℕ → Node P max → Node P max × Bool
  node_callable now n =
      let (shared, alive) = Proxy.callable cfg now n.proxy.shared in
      (record n { proxy = record { shared = shared; connections = n.proxy.connections } }, alive)

  module _ {R : Type 0} ⦃i : IsResponse R⦄ (command : Command R) where
    -- The exchange over a connection that reaches the server in its present state.
    abbrev pub talk : P → Tcp P → Tcp P × Result R
    talk s c = Command.send (tcp server) command (record c { peer = s })

    -- The server's state behind an attempt.
    abbrev pub peer_after : P → Result (Tcp P) → P
    peer_after s (throws e) = s
    peer_after s (returns c) = (talk s c).0.peer

    unfoldable pub node_send : ℕ → Node P max → Node P max × Result R
    unfolding connect
    node_send now n =
        let made = connect server n.addr n.peer in
        let picked = ((pool P max).pick n.proxy.connections made).1 in
        let (proxy, result) = Proxy.send (pool P max) cfg now made (talk n.peer) n.proxy in
        (record n { proxy = proxy; peer = peer_after n.peer picked }, result)

  unfoldable pub callable : ℕ → World P max → World P max × Bool
  unfolding node_callable
  callable idx = on_node idx node_callable true

  abbrev lifespan_of : ℕ → Option (Node P max) → ℕ
  lifespan_of now none = 0
  lifespan_of now (some n) = Proxy.lifespan cfg now n.proxy.shared

  unfoldable pub lifespan : ℕ → World P max → ℕ
  lifespan idx w = lifespan_of (clock w.readings) (get_elem? w.nodes idx)

  unfoldable pub send :
      (R : Type 0) ⦃i : IsResponse R⦄ → Command R → ℕ → World P max → World P max × Result R
  unfolding node_send
  send R command idx = on_node idx (node_send command) (throws Exception.fault)

  -- `server_proxies_t`, as the client uses it.
  abbrev pub cluster : Servers
  cluster = record { World = World P max; callable = callable; lifespan = lifespan; send = send }
