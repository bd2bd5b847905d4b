-- ===== src/Cluster/Text.antt =====
-- A memcached server as its text protocol describes it.
pub mod Set
pub mod Get
pub mod RoundTrip
use mcache_client.Prelude.{ℕ, ◌≤◌, ◌≡◌, List, [], ◌++◌, Option, none, some, Bytes, codes, length}
use mcache_client.Io.Tcp.{Arrival, connected, Peer, written}
use mcache_client.Io.Tcp.Flow.{Flows}
use mcache_client.Io.Tcp.Stream.{octets}
use mcache_client.Proto.Txt.Lines.{Stored, read_stored}
use mcache_client.Proto.Txt.Requests.{line_end}
use mcache_client.Proto.Txt.Retrievals.{read_retrieval}
use mcache_client.Proto.Txt.Values.{value_line, footer}

-- The server takes a packet, goes to a state and sends these octets, in whatever pieces.
pub record Sends {P : Type 0} (server : Peer P) (packet : Bytes) (s : P) (answer : Bytes)
    : Type 0 where
  pub next : P
  pub more : List Arrival
  pub taken : server.accept packet s ≡ (next, written more)
  pub flows : Flows more
  pub same : octets more ≡ answer

-- The documented behaviour: connections are taken; behind the storing of a value that is not too large,
-- its key has no other entry than this value with its flags, and has it if the expiration is 0, which
-- asks for none (another one may be over at once); and a value that is held is sent back on a line of
-- its own behind the line that announces it. `holds` is what the next request finds.
pub record TextServer {P : Type 0} (server : Peer P) : Type 0 where
  pub item_limit : ℕ
  pub holds : P → Bytes → Option (ℕ × Bytes)
  pub listens : (s : P) → server.connect s ≡ connected []
  pub stores :
      (packet : Bytes) (q : Stored) (s : P)
      → read_stored packet ≡ some q
      → q.name ≡ codes "set"
      → q.cas ≡ 0
      → length q.value ≤ item_limit
      → (a : Sends server packet s (codes "STORED" ++ line_end)) × ((e : ℕ × Bytes)
          → holds a.next q.key ≡ some e
          → e ≡ (q.flags, q.value))
        × (q.expiration ≡ 0 → holds a.next q.key ≡ some (q.flags, q.value))
  pub finds :
      (packet key : Bytes) (s : P) (flags : ℕ) (value : Bytes)
      → read_retrieval packet ≡ some (codes "get", key)
      → holds s key ≡ some (flags, value)
      → length value ≤ item_limit
      → Sends server packet s (value_line key flags (length value) none ++ (value ++ footer))
