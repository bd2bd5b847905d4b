-- ===== src/Io/Udp/Link.antt =====
-- src/io/connection.cc, namespace `udp`: the connection with the network behind it. That is a parameter:
-- what becomes of a datagram that is sent, and what will be received because of it.
use mcache_client.Prelude.{ℕ, suc, ◌%◌, ◌^◌, true, false, [], ◌++◌, if◌then◌else◌, Bytes, codes}
use mcache_client.Error.{Exception, Result, returns, throws, ◌>>=◌}
use mcache_client.Io.Address.{parse_address}
use mcache_client.Io.Tcp.{
  Connecting, Writing, unresolved, refused, connected, failed, written, io_failure, timed_out,
  closed_message,
}
use mcache_client.Io.Udp as Udp
use mcache_client.Io.Udp.{Udp, Packet, packet_bytes}
use mcache_client.Proto.Command.{Action, Connection}

-- The connection, the other end, and how many packets were made.
pub record Link (P : Type 0) : Type 0 where
  pub udp : Udp
  pub peer : P
  pub made : ℕ

-- What becomes of a datagram that is written.
abbrev pub Network : Type 0 → Type 0
Network P = Bytes → P → P × Writing

-- A request is one datagram, the first of one.
abbrev pub request : ℕ → Packet
request id = record { id = id; seq = 1; count = 1 }

abbrev opened : {P : Type 0} → Bytes → P → Connecting → Result (Link P)
opened addr s (unresolved msg) = throws (Exception.system_error msg)
opened addr s (refused msg) = throws (io_failure msg)
opened addr s Connecting.stalled = throws (timed_out (codes "can't connect due to timeout") addr)
opened addr s (connected incoming) = returns (record {
  udp = record { addr = addr; is_open = true; buffer = []; id = 0; incoming = incoming };
  peer = s;
  made = 0;
})

-- The constructor: the address is taken apart, and `reach` resolves it and connects the socket, in time
-- or not.
unfoldable pub connect : {P : Type 0} → (Bytes × Bytes → Connecting) → Bytes → P → Result (Link P)
connect reach addr s = do dest ← parse_address addr; opened addr s (reach dest)

-- `draw` gives the hash of the thread and of a random number for each packet.
module _ {P : Type 0} (draw : ℕ → ℕ) (network : Network P) where
  -- `generate_id`.
  abbrev pub new_id : Link P → ℕ
  new_id l = draw l.made % 2 ^ 16

  abbrev pub after_write : Link P → P × Writing → Link P × Result (Unit {0})
  after_write l (s, failed msg) = (record l { peer = s }, throws (io_failure msg))
  after_write l (s, Writing.stalled) = (
    record l { peer = s; udp = record l.udp { is_open = false } },
    throws (timed_out (codes "can't write due to timeout") l.udp.addr),
  )
  after_write l (s, written more) =
      (record l { peer = s; udp = record l.udp { incoming = l.udp.incoming ++ more } }, returns tt)

  -- `write`: the connection's identifier is the new packet's.
  unfoldable pub write : Bytes → Action (Link P) (Unit {0})
  unfolding packet_bytes
  write octets l =
      let l' = record l { udp = record l.udp { id = new_id l }; made = suc l.made } in
      if l.udp.is_open
      then after_write l' (network (packet_bytes (request (new_id l)) octets) l.peer)
      else (l', throws (io_failure closed_message))

  abbrev pub on_link : {A : Type 0} → Action Udp A → Action (Link P) A
  on_link m l = let (u, r) = m l.udp in (record l { udp = u }, r)

  -- What the command parser uses of the class.
  abbrev pub udp : Connection (Link P)
  udp = record {
    write = write;
    read_until = λ delimiter. on_link (Udp.read_until delimiter);
    read = λ n. on_link (Udp.read n);
  }
