-- ===== src/Cluster/Healthy.antt =====
-- A command of the client at a server that answers: through the client's loop, the proxy, its pool of
-- connections, the command parser and a TCP connection.
use mcache_client.Prelude.{
  ℕ, ◌-◌, ◌^◌, ◌≤◌, ◌<◌, All, ◌≡◌, ◌≢◌, refl, ◌∙◌, ap, Bool, true, false, List, [], ◌∷◌, some, ◌==◌,
  Bytes, get_elem?,
}
use mcache_client.Error.{Exception, Result, returns, throws}
use mcache_client.Client as Client
use mcache_client.Client.{run, run_loop}
use mcache_client.Io.Address.{parse_address}
use mcache_client.Io.Tcp.{Peer, connected, connect}
use mcache_client.Io.Tcp.Holding.{IsIdle}
use mcache_client.Proto.Command.{Command}
use mcache_client.Proto.Response.{IsResponse}
use mcache_client.Server.Proxy as Proxy
use mcache_client.Cluster.{Node, World, node_callable, node_send, callable, send, cluster}
use mcache_client.Cluster.Exchange.{Answers, IsHealthy, Reaches, node_send_answers}
use mcache_client.Cluster.Frame.{
  on_node_other, on_node_at, callable_alive, callable_due, IsFinal, run_loop_first,
}

module _ {P : Type 0} (server : Peer P) (max : ℕ) (cfg : Proxy.Config) (clock : ℕ → ℕ) where
  -- At an index there is a server with a good address, in this state, and nothing is under way on the
  -- connections to it.
  pub record IsAt (idx : ℕ) (s : P) (w : World P max) : Type 0 where
    pub node : Node P max
    pub there : get_elem? w.nodes idx ≡ some node
    pub idle : All IsIdle node.proxy.connections
    pub dest : Bytes × Bytes
    pub address : parse_address node.addr ≡ returns dest
    pub state : node.peer ≡ s

  -- And it is not marked dead.
  abbrev pub IsUp : ℕ → P → World P max → Type 0
  IsUp idx s w = (at : IsAt idx s w) × (at.node.proxy.shared.dead ≡ false)

  -- It is marked dead, but its quarantine is over, and nobody is in its reconnect section.
  abbrev pub IsDue : ℕ → P → World P max → Type 0
  IsDue idx s w =
      (at : IsAt idx s w) × (at.node.proxy.shared.dead ≡ true)
      × (at.node.proxy.shared.restoration ≤ clock w.readings)
      × (at.node.proxy.shared.locked ≡ false)

  -- In this state the server takes a connection, and says nothing before it is asked.
  abbrev pub Listens : P → Type 0
  Listens s = server.connect s ≡ connected []

  pub reaches :
      (n : Node P max) (dest : Bytes × Bytes)
      → Listens n.peer
      → parse_address n.addr ≡ returns dest
      → Reaches max server n
  unfolding connect
  reaches n dest listens e = (
    record { addr = n.addr; is_open = true; input = []; incoming = []; peer = n.peer },
    rw (e, listens) refl,
    record { is_open = refl; flows = tt; drained = refl },
  )

  module _ {R : Type 0} ⦃i : IsResponse R⦄ (command : Command R) where
    pub send_answers :
        (idx : ℕ) (w : World P max) (n : Node P max) (s' : P) (r' : R)
        → get_elem? w.nodes idx ≡ some n
        → All IsIdle n.proxy.connections
        → Reaches max server n
        → Answers server command n.peer s' r'
        → let after = send server max cfg clock R command idx w in
          (after.1 ≡ returns r')
          × ((n' : Node P max) × (get_elem? after.0.nodes idx ≡ some n')
              × IsHealthy max n'
              × (n'.peer ≡ s')
              × (n'.addr ≡ n.addr))
    unfolding send
    send_answers idx w n s' r' e h reached a =
        let (result, there) =
          on_node_at server max cfg clock idx (node_send server max cfg clock command) _ w n e in
        let (returned, healthy, moved, same) =
          node_send_answers server max cfg clock command (clock w.readings) n s' r' h reached a in
        (result ∙ returned, (_, there, healthy, moved, same))

    -- Neither call on a server touches another one.
    pub callable_other :
        (idx j : ℕ) (w : World P max)
        → idx ≢ j
        → get_elem? (callable server max cfg clock idx w).0.nodes j ≡ get_elem? w.nodes j
    unfolding callable
    callable_other idx j w ne =
        on_node_other server max cfg clock idx j (node_callable server max cfg clock) true w ne

    pub send_other :
        (idx j : ℕ) (w : World P max)
        → idx ≢ j
        → get_elem? (send server max cfg clock R command idx w).0.nodes j ≡ get_elem? w.nodes j
    unfolding send
    send_other idx j w ne =
        on_node_other server max cfg clock idx j (node_send server max cfg clock command)
          (throws Exception.fault) w ne

    module _ (conf : Client.Config) (h404 : Bool) (idx : ℕ) (rest : List ℕ) (w : World P max)
        (s s' : P) (r' : R) where
      -- What becomes of a command that is answered.
      abbrev pub Done : World P max × Result R → Type 0
      Done after =
          (after.1 ≡ returns r')
          × IsUp idx s' after.0
          × ((j : ℕ) → idx ≢ j → get_elem? after.0.nodes j ≡ get_elem? w.nodes j)

      pub run_loop_allowed :
          (prev conts : ℕ) (none_left : Bool)
          → (at : IsAt idx s (callable server max cfg clock idx w).0)
          → (callable server max cfg clock idx w).1 ≡ true
          → Listens s
          → Answers server command s s' r'
          → IsFinal (cluster server max cfg clock) conf r'
          → conts < conf.max_continues
          → (idx == prev) ≡ false
          → Done (
              run_loop
                (cluster server max cfg clock)
                conf
                command
                h404
                (idx ∷ rest)
                prev
                conts
                none_left
                w)
      run_loop_allowed prev conts none_left up allowed listens a final some_tries fresh =
          let n = up.node in
          let w1 = (callable server max cfg clock idx w).0 in
          let a' : Answers server command n.peer s' r' = rw (up.state) a in
          let (returned, (n', there', healthy, moved, same)) =
            send_answers idx w1 n s' r' up.there up.idle
              (reaches n up.dest (rw (up.state) listens) up.address) a' in
          rw
            (run_loop_first (cluster server max cfg clock) conf command h404 idx rest w prev conts
              none_left r' some_tries fresh allowed returned final)
            (
              refl,
              (
                record {
                  node = n';
                  there = there';
                  idle = healthy.idle;
                  dest = up.dest;
                  address = ap parse_address same ∙ up.address;
                  state = moved;
                },
                healthy.alive,
              ),
              (λ j ne. send_other idx j w1 ne ∙ callable_other idx j w ne),
            )

      -- Where the first server of a command's walk is up and answers it with a final code, `run`
      -- returns that answer; the server stays up, in the state that the command left it in; and no
      -- other server is touched.
      pub run_answers :
          Listens s
          → IsUp idx s w
          → Answers server command s s' r'
          → IsFinal (cluster server max cfg clock) conf r'
          → 0 < conf.max_continues
          → (idx == 2 ^ 32 - 1) ≡ false
          → Done (run (cluster server max cfg clock) conf command h404 (idx ∷ rest) w)
      unfolding run
      run_answers listens (up, alive) a final some_tries fresh =
          let (allowed, there) = callable_alive server max cfg clock idx w up.node up.there alive in
          run_loop_allowed (2 ^ 32 - 1) 0 true
            (record {
              node = up.node;
              there = there;
              idle = up.idle;
              dest = up.dest;
              address = up.address;
              state = up.state;
            })
            allowed listens a final some_tries fresh

      -- A server that was marked dead comes back: when its quarantine is over and nobody is in its
      -- reconnect section (`IsDue`), the next command with that server first in its walk goes to
      -- it. If it takes connections and answers with a final code, `run` returns that answer and
      -- the server is up again, open to every caller; no other server is touched. Its index is not
      -- 2 ^ 32 - 1, and at least one server may be asked.
      pub run_recovers :
          Listens s
          → IsDue idx s w
          → Answers server command s s' r'
          → IsFinal (cluster server max cfg clock) conf r'
          → 0 < conf.max_continues
          → (idx == 2 ^ 32 - 1) ≡ false
          → Done (run (cluster server max cfg clock) conf command h404 (idx ∷ rest) w)
      unfolding run
      run_recovers listens (was, dead, due, free) a final some_tries fresh =
          let (allowed, there, addr, peer, connections) =
            callable_due server max cfg clock idx w was.node was.there due free in
          run_loop_allowed (2 ^ 32 - 1) 0 true
            (record {
              node = (node_callable server max cfg clock (clock w.readings) was.node).0;
              there = there;
              idle = rw connections was.idle;
              dest = was.dest;
              address = rw addr was.address;
              state = peer ∙ was.state;
            })
            allowed listens a final some_tries fresh
