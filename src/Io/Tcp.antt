-- ===== src/Io/Tcp.antt =====
-- include/mcache/io/connection.h and src/io/connection.cc, namespace `tcp`: a connection over a stream
-- of octets. The socket, its timer and the other end are Boost.Asio's and the network's: they are the
-- parameter `Peer`, and what will arrive is a list of arrivals, in order.
pub mod Stream
pub mod Exchange
pub mod Flow
pub mod Holding
use mathlib.Core.Option
use mcache_client.Prelude.{
  ℕ, ◌+◌, Bool, true, false, List, [], ◌∷◌, ◌++◌, Option, none, some, leb, if◌then◌else◌, Bytes,
  codes, take, drop, length,
}
use mcache_client.Error.{IoErrorCode, Exception, Result, returns, throws, ◌>>=◌, ◌>>◌}
use mcache_client.Io.Address.{parse_address}
use mcache_client.Io.Search.{split_first}
use mcache_client.Proto.Command.{Action, Connection}

-- What the socket receives next: some octets, or an error with its message. Where nothing is left to
-- arrive, the deadline ends the wait.
pub data Arrival : Type 0 where
  chunk : Bytes → Arrival
  breaks : Bytes → Arrival

-- How an attempt to connect ends. A resolver that fails throws an exception of Boost's own.
pub data Connecting : Type 0 where
  unresolved : Bytes → Connecting
  refused : Bytes → Connecting
  stalled : Connecting
  connected : List Arrival → Connecting

-- How a write ends, and what arrives because of it.
pub data Writing : Type 0 where
  failed : Bytes → Writing
  stalled : Writing
  written : List Arrival → Writing

-- The other end, in states of a type `P`.
pub record Peer (P : Type 0) : Type 0 where
  pub connect : P → Connecting
  pub accept : Bytes → P → P × Writing

-- `connection_t` with its socket.
pub record Tcp (P : Type 0) : Type 0 where
  pub addr : Bytes
  pub is_open : Bool
  pub input : Bytes
  pub incoming : List Arrival
  pub peer : P

abbrev pub io_failure : Bytes → Exception
io_failure msg = Exception.io_error IoErrorCode.io_error msg

abbrev pub timed_out : Bytes → Bytes → Exception
timed_out msg addr = Exception.io_error IoErrorCode.timeout (msg ++ (codes ": dst=" ++ addr))

-- What the operating system says of a socket that was closed.
abbrev pub closed_message : Bytes
closed_message = codes "Bad file descriptor"

abbrev opened : {P : Type 0} → Bytes → P → Connecting → Result (Tcp P)
opened addr s (unresolved msg) = throws (Exception.system_error msg)
opened addr s (refused msg) = throws (io_failure msg)
opened addr s Connecting.stalled = throws (timed_out (codes "can't connect due to timeout") addr)
opened addr s (connected incoming) =
    returns (record { addr = addr; is_open = true; input = []; incoming = incoming; peer = s })

-- The constructor: the address is taken apart, resolved and connected to.
unfoldable pub connect : {P : Type 0} → Peer P → Bytes → P → Result (Tcp P)
connect server addr s = do dest ← parse_address addr; opened addr s (server.connect s)

-- How a wait for input ends: with the number of octets that the caller gets, or without any.
pub data Waiting : Type 0 where
  ready : ℕ → Waiting
  broken : Bytes → Waiting
  silent : Waiting

abbrev or_silent : Option ℕ → Waiting
or_silent none = silent
or_silent (some n) = ready n

-- `async_read_until` and `async_read`: what arrives goes to the buffer until there is enough in it.
unfoldable pub gather : (Bytes → Option ℕ) → List Arrival → Bytes → Bytes × List Arrival × Waiting
gather enough [] input = (input, [], or_silent (enough input))
gather enough (chunk octets ∷ rest) input = elim (enough input) [
  | some n ↦ (input, chunk octets ∷ rest, ready n)
  | none ↦ gather enough rest (input ++ octets)
]
gather enough (breaks msg ∷ rest) input = elim (enough input) [
  | some n ↦ (input, breaks msg ∷ rest, ready n)
  | none ↦ (input, rest, broken msg)
]

-- A closed socket only says so.
abbrev pub arrivals : {P : Type 0} → Tcp P → List Arrival
arrivals t = if t.is_open then t.incoming else breaks closed_message ∷ []

-- The octets up to the first delimiter, and it; or a number of octets.
unfoldable pub up_to : Bytes → Bytes → Option ℕ
unfolding split_first
up_to delimiter input =
    Option.map (λ (q : Bytes × Bytes). length q.0 + length delimiter) (split_first delimiter input)

unfoldable pub at_least : ℕ → Bytes → Option ℕ
at_least count input = if leb count (length input) then some count else none

module _ {P : Type 0} where
  -- `copy_n`, or one of the exceptions behind the wait. The deadline closes the socket.
  abbrev pub settled : Tcp P → Bytes × List Arrival × Waiting → Tcp P × Result Bytes
  settled t (input, rest, ready n) =
      (record t { input = drop n input; incoming = rest }, returns (take n input))
  settled t (input, rest, broken msg) =
      (record t { input = input; incoming = rest }, throws (io_failure msg))
  settled t (input, rest, silent) = (
    record t { input = input; incoming = rest; is_open = false },
    throws (timed_out (codes "can't read due to timeout") t.addr),
  )

  unfoldable pub read_until : Bytes → Action (Tcp P) Bytes
  unfolding gather up_to
  read_until delimiter t = settled t (gather (up_to delimiter) (arrivals t) t.input)

  unfoldable pub read : ℕ → Action (Tcp P) Bytes
  unfolding gather at_least
  read count t = settled t (gather (at_least count) (arrivals t) t.input)

  abbrev pub after_write : Tcp P → P × Writing → Tcp P × Result (Unit {0})
  after_write t (s, failed msg) = (record t { peer = s }, throws (io_failure msg))
  after_write t (s, Writing.stalled) = (
    record t { peer = s; is_open = false },
    throws (timed_out (codes "can't write due to timeout") t.addr),
  )
  after_write t (s, written more) =
      (record t { peer = s; incoming = t.incoming ++ more }, returns tt)

  unfoldable pub write : Peer P → Bytes → Action (Tcp P) (Unit {0})
  write server octets t =
      if t.is_open
      then after_write t (server.accept octets t.peer)
      else (t, throws (io_failure closed_message))

  -- What the command parser uses of the class.
  abbrev pub tcp : Peer P → Connection (Tcp P)
  tcp server = record { write = write server; read_until = read_until; read = read }
