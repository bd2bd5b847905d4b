-- ===== src/Cluster/Exchange.antt =====
-- An exchange of a healthy node with a server that answers: through the proxy, its pool of connections,
-- the command parser and a TCP connection.
use mcache_client.Prelude.{
  ℕ, ◌≡◌, refl, inl, inr, Bool, true, false, List, [], ◌∷◌, ◌++◌, Bytes, length, ltb, if◌then◌else◌,
  Bool-cases, All,
}
use mcache_client.Error.{Result, returns, response_value}
use mcache_client.Io.Connections.Caching.{pick, push_back}
use mcache_client.Io.Tcp.{Arrival, Peer, Tcp, written, connect}
use mcache_client.Io.Tcp.Exchange.{send_exchange}
use mcache_client.Proto.Command.Steps.{completed}
use mcache_client.Io.Tcp.Holding.{Ends, IsIdle}
use mcache_client.Io.Tcp.Flow.{Flows}
use mcache_client.Io.Tcp.Stream.{octets}
use mcache_client.Proto.Command.{Command}
use mcache_client.Proto.Response.{IsResponse}
use mcache_client.Server.Proxy as Proxy
use mcache_client.Server.Proxy.Guard.{send_response}
use mcache_client.Cluster.{pool, Node, node_send, talk}

module _ {P : Type 0} {R : Type 0} ⦃i : IsResponse R⦄ where
  -- The server in state `s` takes the command's packet and answers, in whatever pieces, what the client
  -- reads as this response; then it is in state `s'`.
  pub record Answers (server : Peer P) (command : Command R) (s s' : P) (r' : R) : Type 0 where
    pub packet : Bytes
    pub header : Bytes
    pub body : Bytes
    pub r : R
    pub more : List Arrival
    pub serial : command.serialize ≡ returns packet
    pub taken : server.accept packet s ≡ (s', written more)
    pub flows : Flows more
    pub same : octets more ≡ header ++ body
    pub ends : Ends command.header_delimiter header body
    pub parsed : command.deserialize_header header ≡ returns r
    pub size : i.expected_body_size r ≡ length body
    pub complete : completed r body ≡ returns r'

module _ {P : Type 0} (max : ℕ) where
  -- A node whose server is not marked dead, with connections on which nothing is under way.
  pub record IsHealthy (n : Node P max) : Type 0 where
    pub alive : n.proxy.shared.dead ≡ false
    pub idle : All IsIdle n.proxy.connections

  -- A new connection to the server can be made.
  abbrev pub Reaches : Peer P → Node P max → Type 0
  Reaches server n = (c : Tcp P) × (connect server n.addr n.peer ≡ returns c) × IsIdle c

module _ {P : Type 0} where
  push_back-All :
      (max : ℕ) (c : Tcp P) (cs : List (Tcp P))
      → IsIdle c
      → All IsIdle cs
      → All IsIdle (push_back max c cs)
  unfolding push_back
  push_back-All max c cs h hs = elim (Bool-cases (ltb (length cs) max)) [
    | inl room ↦ rw room (h, hs)
    | inr full ↦ rw full hs
  ]

  pick-idle :
      (cs : List (Tcp P)) (made : Result (Tcp P)) (c : Tcp P)
      → All IsIdle cs
      → made ≡ returns c
      → IsIdle c
      → (c' : Tcp P) × ((pick cs made).1 ≡ returns c') × IsIdle c' × All IsIdle (pick cs made).0
  unfolding pick
  pick-idle [] made c hs e h = (c, e, h, tt)
  pick-idle (d ∷ cs) made c hs e h = (d, refl, hs.0, hs.1)

  if-All :
      (b : Bool) (xs ys : List (Tcp P))
      → All IsIdle xs
      → All IsIdle ys
      → All IsIdle (if b then xs else ys)
  if-All true xs ys hx hy = hx
  if-All false xs ys hx hy = hy

module _ {P : Type 0} (server : Peer P) (max : ℕ) (cfg : Proxy.Config) (clock : ℕ → ℕ) {R : Type 0}
    ⦃i : IsResponse R⦄ (command : Command R) where
  talk_answers :
      (s s' : P) (r' : R) (c : Tcp P)
      → IsIdle c
      → Answers server command s s' r'
      → ((talk server max cfg clock command s c).1 ≡ returns r')
        × IsIdle (talk server max cfg clock command s c).0
        × ((talk server max cfg clock command s c).0.peer ≡ s')
  talk_answers s s' r' c h a =
      send_exchange server command a.packet a.header a.body a.r r' s' a.more (record c { peer = s })
        (record { is_open = h.is_open; flows = h.flows; drained = h.drained }) a.serial a.taken
        a.flows a.same a.ends a.parsed a.size a.complete

  -- The node gives the response back, is healthy then, and its server is in the new state.
  pub node_send_answers :
      (now : ℕ) (n : Node P max) (s' : P) (r' : R)
      → All IsIdle n.proxy.connections
      → Reaches max server n
      → Answers server command n.peer s' r'
      → let after = node_send server max cfg clock command now n in
        (after.1 ≡ returns r')
        × IsHealthy max after.0
        × (after.0.peer ≡ s')
        × (after.0.addr ≡ n.addr)
  unfolding node_send
  node_send_answers now n s' r' h (c0, made, idle0) a =
      let made' = connect server n.addr n.peer in
      let (c, picked, idle, rest) = pick-idle n.proxy.connections made' c0 h made idle0 in
      let (got, idle', moved) = talk_answers n.peer s' r' c idle a in
      let c' = (talk server max cfg clock command n.peer c).0 in
      let (returned, alive, fails, kept) =
        send_response (pool P max) cfg now made' (talk server max cfg clock command n.peer) n.proxy
          c c' r' picked (λ j. (c', got j)) in
      (
        returned,
        record {
          alive = alive;
          idle = rw kept (
              if-All (ltb (response_value (i.code r')) 500) _ _ (push_back-All max c' _ idle' rest)
                rest);
        },
        rw picked moved,
        refl,
      )
