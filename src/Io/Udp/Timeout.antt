-- ===== src/Io/Udp/Timeout.antt =====
-- src/io/connection.cc, namespace `udp`: what an exchange without an answer leaves behind.
use mcache_client.Prelude.{ℕ, false, [], Bytes}
use mcache_client.Io.Udp as Udp
use mcache_client.Io.Udp.{Udp}
use mcache_client.Io.Udp.Link.{Link, Network}
use mcache_client.Io.Udp.Message.{at}
use mcache_client.Io.Udp.Exchange.{link}
use mcache_client.Proto.Command.{Command}

module _ {P : Type 0} (draw : ℕ → ℕ) (network : Network P) where
  -- The connection behind a wait that the deadline has ended.
  abbrev pub timed_out_link : Bytes → ℕ → P → ℕ → Link P
  timed_out_link addr id s made =
      link draw network (record (at addr [] id []) { is_open = false }) s made
