-- ===== src/Io/Udp.antt =====
-- include/mcache/io/connection.h and src/io/connection.cc, namespace `udp`: a connection that puts
-- a response together from datagrams. What the socket will receive is a list of arrivals, in order;
-- the socket itself and its timers belong to Boost.Asio. Where nothing is left to arrive, the deadline
-- ends the wait, and closes the socket.
pub mod Exchange
pub mod Link
pub mod Message
pub mod Timeout
use mcache_client.Prelude.{
  ℕ, zero, suc, ◌+◌, ◌-◌, ◌*◌, ◌/◌, ◌%◌, Bool, true, false, not, List, [], ◌∷◌, ◌++◌, Option, none,
  some, ltb, ◌==◌, if◌then◌else◌, Bytes, codes, be, from_be, starts_with, take, drop, length,
}
use mcache_client.Error.{Exception, Result, returns, throws}
use mcache_client.Io.Search.{split_first}
use mcache_client.Io.Tcp.{Arrival, chunk, breaks, io_failure, timed_out, closed_message}
use mcache_client.Proto.Command.{Action, ◌>>=◌, ◌>>◌, lift}

-- `packet_t`. The identifier is copied in the machine's order, little-endian; `seq` and `count` are
-- in network order.
pub record Packet : Type 0 where
  pub id : ℕ
  pub seq : ℕ
  pub count : ℕ

abbrev pub packet_size : ℕ
packet_size = 8

-- The octets of a packet with its data: `operator+`.
unfoldable pub packet_bytes : Packet → Bytes → Bytes
packet_bytes p payload =
    p.id % 256 ∷ p.id / 256 % 256 ∷ (be 2 p.seq ++ (be 2 p.count ++ (0 ∷ 0 ∷ payload)))

-- The constructor from raw octets.
unfoldable pub parse_packet : Bytes → Packet
parse_packet raw = record {
  id = from_be (take 1 raw) + 256 * from_be (take 1 (drop 1 raw));
  seq = from_be (take 2 (drop 2 raw));
  count = from_be (take 2 (drop 4 raw));
}

-- `connection_t`, with its socket.
pub record Udp : Type 0 where
  pub addr : Bytes
  pub is_open : Bool
  pub buffer : Bytes
  pub id : ℕ
  pub incoming : List Arrival

abbrev failed : {A : Type 0} → Bytes → Action Udp A
failed msg = lift (throws (io_failure msg))

abbrev pub require : Bool → Bytes → Action Udp (Unit {0})
require true msg = lift (returns tt)
require false msg = failed msg

-- The data of a datagram goes to the buffer before anybody looks at its header. A datagram shorter
-- than a header makes the source read what was never received.
abbrev take_in : Arrival → Udp → Udp × Result Packet
take_in (breaks msg) u = (u, throws (io_failure msg))
take_in (chunk raw) u =
    if ltb (length raw) packet_size
    then (u, throws Exception.fault)
    else (record u { buffer = u.buffer ++ drop packet_size raw }, returns (parse_packet raw))

abbrev receive_from : List Arrival → Udp → Udp × Result Packet
receive_from [] u =
    (record u { is_open = false }, throws (timed_out (codes "can't read due to timeout") u.addr))
receive_from (r ∷ rest) u = take_in r (record u { incoming = rest })

-- `receive`: a closed socket only says so.
unfoldable pub receive : Action Udp Packet
unfolding parse_packet
receive u = if u.is_open then receive_from u.incoming u else (u, throws (io_failure closed_message))

abbrev pub own_id : Action Udp ℕ
own_id u = (u, returns u.id)

-- The loop of `fill`, over the datagrams that are left; `i` is the next number.
unfoldable pub fill_rest : ℕ → ℕ → Packet → Action Udp (Unit {0})
unfolding receive
fill_rest zero i first = lift (returns tt)
fill_rest (suc left) i first = do
  next ← receive
  require (next.seq == i) (codes "next: invalid seq number")
  require (next.count == first.count) (codes "next: invalid count")
  id ← own_id
  require (next.id == id) (codes "next: invalid id")
  fill_rest left (suc i) first

-- `fill`.
unfoldable pub fill : Action Udp (Unit {0})
unfolding receive fill_rest
fill = do
  packet ← receive
  require (packet.seq == 0) (codes "first: invalid seq number")
  id ← own_id
  require (packet.id == id) (codes "first: invalid id")
  fill_rest (packet.count - 1) 1 packet

abbrev fill_if_empty : Bytes → Action Udp (Unit {0})
fill_if_empty [] = fill
fill_if_empty (c ∷ buffer) = lift (returns tt)

abbrev cut_header : Option (Bytes × Bytes) → Action Udp Bytes
cut_header none u = failed (codes "partial input") u
cut_header (some (header, rest)) u = (record u { buffer = rest }, returns header)

abbrev pub search_header : Bytes → Action Udp Bytes
search_header delimiter u = cut_header (split_first delimiter u.buffer) u

-- `read` up to a delimiter: unlike that of a TCP connection it does not return the delimiter.
unfoldable pub read_until : Bytes → Action Udp Bytes
unfolding fill split_first
read_until delimiter u = (fill_if_empty u.buffer >> search_header delimiter) u

abbrev pub cut_front : ℕ → Action Udp Bytes
cut_front n u =
    if ltb (length u.buffer) n
    then failed (codes "partial input") u
    else (record u { buffer = drop n u.buffer }, returns (take n u.buffer))

-- `read` of a number of octets.
unfoldable pub read : ℕ → Action Udp Bytes
unfolding fill
read n u = (fill_if_empty u.buffer >> cut_front n) u
