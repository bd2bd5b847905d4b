-- ===== src/Cluster/Failover.antt =====
-- A command whose first server cannot be reached: the client counts the failure and goes on to the next.
use mcache_client.Prelude.{
  ℕ, ◌+◌, ◌-◌, ◌%◌, ◌^◌, ◌≤◌, ◌<◌, ◌≡◌, ◌≢◌, refl, sym, ◌∙◌, inl, Bool, true, false, List, [], ◌∷◌,
  some, ◌==◌, Bytes, get_elem?, arith,
}
use mcache_client.Error.{IoErrorCode, ResponseCode, Exception, returns, throws}
use mcache_client.Client as Client
use mcache_client.Client.{run, run_loop}
use mcache_client.Io.Address.{parse_address}
use mcache_client.Io.Connections.Caching.{pick}
use mcache_client.Io.Tcp.{Peer, refused, connect, io_failure}
use mcache_client.Proto.Command.{Command}
use mcache_client.Proto.Response.{IsResponse}
use mcache_client.Server.Proxy as Proxy
use mcache_client.Server.Proxy.Guard.{send_io_error}
use mcache_client.Cluster.{pool, Node, World, node_send, talk, callable, send, cluster}
use mcache_client.Cluster.Exchange.{Answers}
use mcache_client.Cluster.Frame.{on_node_at, callable_alive, IsFinal, run_loop_broken}
use mcache_client.Cluster.Healthy.{
  IsAt, IsUp, Listens, callable_other, send_other, run_loop_allowed,
}

distinct : (i j : ℕ) → i ≢ j → (j == i) ≡ false
distinct i j ne = ground arith

module _ {P : Type 0} (server : Peer P) (max : ℕ) (cfg : Proxy.Config) (clock : ℕ → ℕ) where
  -- The server at an index is not marked dead, but it refuses a new connection, and there is no old one.
  pub record Refuses (idx : ℕ) (w : World P max) : Type 0 where
    pub node : Node P max
    pub there : get_elem? w.nodes idx ≡ some node
    pub alive : node.proxy.shared.dead ≡ false
    pub free : node.proxy.shared.locked ≡ false
    pub unconnected : node.proxy.connections ≡ []
    pub dest : Bytes × Bytes
    pub address : parse_address node.addr ≡ returns dest
    pub msg : Bytes
    pub refusal : server.connect node.peer ≡ refused msg

  -- A node whose failures are counted up, and that is dead if they have reached the limit.
  pub record Counted (before : Node P max) (n : Node P max) : Type 0 where
    pub fails : n.proxy.shared.fails ≡ (before.proxy.shared.fails + 1) % 2 ^ 32
    pub dead :
        cfg.fail_limit ≤ (before.proxy.shared.fails + 1) % 2 ^ 32 → n.proxy.shared.dead ≡ true
    pub alive :
        (before.proxy.shared.fails + 1) % 2 ^ 32 < cfg.fail_limit → n.proxy.shared.dead ≡ false

  module _ {R : Type 0} ⦃i : IsResponse R⦄ (command : Command R) where
    node_send-refused :
        (now : ℕ) (n : Node P max) (dest : Bytes × Bytes) (msg : Bytes)
        → n.proxy.shared.dead ≡ false
        → n.proxy.shared.locked ≡ false
        → n.proxy.connections ≡ []
        → parse_address n.addr ≡ returns dest
        → server.connect n.peer ≡ refused msg
        → let after = node_send server max cfg clock command now n in
          ((r : R) × (after.1 ≡ returns r) × (i.code r ≡ ResponseCode.io_error)) × Counted n after.0
    unfolding node_send
    node_send-refused now n dest msg alive free none address refusal =
        let made = connect server n.addr n.peer in
        let fails : made ≡ throws (io_failure msg) = unfold connect in rw (address, refusal) refl in
        let picked : (pick n.proxy.connections made).1 ≡ throws (io_failure msg) =
          rw none (unfold pick in fails) in
        let (broken, counting, held) =
          send_io_error (pool P max) cfg now made (talk server max cfg clock command n.peer) n.proxy
            IoErrorCode.io_error msg (inl picked) in
        let (fails', unlocked, dies, lives) = counting free in
        (
          broken,
          record { fails = fails'; dead = λ h. (dies h).0; alive = λ h. (lives h).0 ∙ alive },
        )

    -- The same of the call by index.
    send-refused :
        (idx : ℕ) (w w1 : World P max) (down : Refuses idx w)
        → get_elem? w1.nodes idx ≡ some down.node
        → let after = send server max cfg clock R command idx w1 in
          ((r : R) × (after.1 ≡ returns r) × (i.code r ≡ ResponseCode.io_error))
          × ((n : Node P max) × (get_elem? after.0.nodes idx ≡ some n) × Counted down.node n)
    unfolding send
    send-refused idx w w1 down there =
        let (result, kept) =
          on_node_at server max cfg clock idx (node_send server max cfg clock command)
            (throws Exception.fault) w1 down.node there in
        let ((r, returned, broken), counted) =
          node_send-refused (clock w1.readings) down.node down.dest down.msg down.alive down.free
            down.unconnected down.address down.refusal in
        ((r, result ∙ returned, broken), (_, kept, counted))

    module _ (conf : Client.Config) (h404 : Bool) (idx j : ℕ) (rest : List ℕ) (w : World P max)
        (s s' : P) (r' : R) where
      -- Where the first server of a command's walk is not marked dead but refuses the connection,
      -- with none kept and its lock free (`Refuses`), and the second, another one, is up, takes
      -- connections and answers with a final code, `run` returns that answer, provided that it may
      -- ask two servers and the first one's index is not 2 ^ 32 - 1. The first one's failure is
      -- counted, so that it is dead if the limit is reached and else is not; the second stays up,
      -- in the state that the command left it in; and no other server is touched.
      pub run_fails_over :
          (down : Refuses idx w)
          → IsUp server max cfg clock j s w
          → Listens server max cfg clock s
          → Answers server command s s' r'
          → IsFinal (cluster server max cfg clock) conf r'
          → 1 < conf.max_continues
          → (idx == 2 ^ 32 - 1) ≡ false
          → idx ≢ j
          → let after = run (cluster server max cfg clock) conf command h404 (idx ∷ j ∷ rest) w in
            (after.1 ≡ returns r')
            × IsUp server max cfg clock j s' after.0
            × ((n : Node P max) × (get_elem? after.0.nodes idx ≡ some n) × Counted down.node n)
            × ((k : ℕ) → idx ≢ k → j ≢ k → get_elem? after.0.nodes k ≡ get_elem? w.nodes k)
      unfolding run
      run_fails_over down (up, alive) listens a final tries fresh ne =
          let other : (j == idx) ≡ false = distinct idx j ne in
          let w1 = (callable server max cfg clock idx w).0 in
          let (allowed, there) =
            callable_alive server max cfg clock idx w down.node down.there down.alive in
          let ((r, failed, broken), (n, there', counted)) = send-refused idx w w1 down there in
          let w2 = (send server max cfg clock R command idx w1).0 in
          let keeps : (k : ℕ) → idx ≢ k → get_elem? w2.nodes k ≡ get_elem? w.nodes k = λ k d.
            send_other server max cfg clock command idx k w1 d
            ∙ callable_other server max cfg clock command idx k w d in
          let (allowed', found) =
            callable_alive server max cfg clock j w2 up.node (keeps j ne ∙ up.there) alive in
          let at : IsAt server max cfg clock j s (callable server max cfg clock j w2).0 = record {
            node = up.node;
            there = found;
            idle = up.idle;
            dest = up.dest;
            address = up.address;
            state = up.state;
          } in
          let (returned, up', frame) =
            run_loop_allowed server max cfg clock command conf h404 j rest w2 s s' r' idx 1 true at
              allowed' listens a final tries other in
          rw
            (run_loop_broken (cluster server max cfg clock) conf command h404 idx (j ∷ rest) w
              (2 ^ 32 - 1) 0 true r (omega arith) fresh allowed failed broken)
            (
              returned,
              up',
              (n, frame idx (λ e. ne (sym e)) ∙ there', counted),
              (λ k d d'. frame k d' ∙ keeps k d),
            )
