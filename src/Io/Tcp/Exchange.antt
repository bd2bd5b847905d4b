-- ===== src/Io/Tcp/Exchange.antt =====
-- include/mcache/proto/parser.h over a TCP connection: one exchange with a server that answers.
use mcache_client.Prelude.{
  ◌≡◌, ◌∙◌, subst, inl, inr, List, [], ◌++◌, arith, Bool-cases, ◌==◌, Bytes, length, append-nil,
}
use mcache_client.Error.{Result, returns}
use mcache_client.Io.Tcp.{Arrival, Peer, Tcp, written, read, write, tcp}
use mcache_client.Io.Tcp.Flow.{Flows}
use mcache_client.Io.Tcp.Stream.{octets}
use mcache_client.Proto.Command.{Command, read_header, deserialize_body, send}
use mcache_client.Proto.Command.Steps.{length_zero, completed, no_body, some_body, send_steps}
use mcache_client.Proto.Response.{IsResponse}
use mcache_client.Io.Tcp.Holding.{
  Ends, IsIdle, Holds, Front, read_header-Front, write-Holds, read-Front,
}

module _ {P : Type 0} (server : Peer P) {R : Type 0} ⦃i : IsResponse R⦄ where
  -- A response, an idle connection, and the server's new state.
  abbrev pub Answered : R → P → Tcp P × Result R → Type 0
  Answered r s q = (q.1 ≡ returns r) × IsIdle q.0 × (q.0.peer ≡ s)

  deserialize_body-completed :
      (r r' : R) (body : Bytes) (s : P) (t : Tcp P)
      → Holds body s t
      → i.expected_body_size r ≡ length body
      → completed r body ≡ returns r'
      → Answered r' s (deserialize_body (tcp server) r t)
  deserialize_body-completed r r' body s t h size e =
      elim (Bool-cases (i.expected_body_size r == 0)) [
        | inl none_expected ↦
            let empty = length_zero body (ground (arith, size)) in
            rw (no_body (tcp server) r t none_expected) (
              rw none_expected at e,
              record { is_open = h.is_open; flows = h.flows; drained = h.holds ∙ empty },
              h.peer,
            )
        | inr some_expected ↦
            let whole : Holds (body ++ []) s t = rw append-nil h in
            let read_all : Front body [] s (read (i.expected_body_size r) t) =
              rw size (read-Front body [] s t whole) in
            let left = read_all.1 in
            rw (some_body (tcp server) r body t some_expected read_all.0) (
              rw some_expected at e,
              record { is_open = left.is_open; flows = left.flows; drained = left.holds },
              left.peer,
            )
      ]

  -- An exchange over an idle connection: where the server takes the packet and answers, in whatever
  -- pieces, with a header and a body that fit the command, `send` returns the response with its
  -- body, and the connection is idle again.
  pub send_exchange :
      (command : Command R) (packet header body : Bytes) (r r' : R) (s : P) (more : List Arrival)
      (t : Tcp P)
      → IsIdle t
      → command.serialize ≡ returns packet
      → server.accept packet t.peer ≡ (s, written more)
      → Flows more
      → octets more ≡ header ++ body
      → Ends command.header_delimiter header body
      → command.deserialize_header header ≡ returns r
      → i.expected_body_size r ≡ length body
      → completed r body ≡ returns r'
      → Answered r' s (send (tcp server) command t)
  send_exchange command packet header body r r' s more t idle serial taken f same ends parsed size
        done =
      let sent = write-Holds server packet s more t idle taken f in
      let t1 = (write server packet t).0 in
      let held : Holds (header ++ body) s t1 = subst (λ o. Holds o s t1) same sent.1 in
      let begun = read_header-Front server command.header_delimiter header body s t1 held ends in
      let t2 = (read_header (tcp server) command.header_delimiter t1).0 in
      rw (send_steps (tcp server) command packet header r t serial sent.0 begun.0 parsed)
        (deserialize_body-completed r r' body s t2 begun.1 size done)
