-- ===== src/Tests/Udp.antt =====
-- src/io/connection.cc: an exchange over UDP whose answer comes in two datagrams.
use mcache_client.Prelude.{ℕ, ◌≡◌, refl, [], ◌∷◌, arith, Bytes, from_be}
use mcache_client.Error.{ResponseCode, returns}
use mcache_client.Io.Tcp.{chunk, written}
use mcache_client.Io.Udp.{parse_packet, packet_bytes}
use mcache_client.Io.Udp.Exchange.{link, send_datagrams}
use mcache_client.Io.Udp.Link.{Network, udp}
use mcache_client.Io.Udp.Message.{at}
use mcache_client.Proto.Command.{Command, after, send}
use mcache_client.Proto.Response.{
  SingleBodyResponse, body_of_size, set_body_default, single_body_response, set_single_body,
}
use mcache_client.Tests.Pool.{datagram}

-- Every packet's identifier is 7; the network keeps the last datagram.
abbrev sevens : ℕ → ℕ
sevens n = 7

abbrev network : Network Bytes
network octets s = (octets, written (chunk (datagram 0 65) ∷ chunk (datagram 1 66) ∷ []))

abbrev answer : SingleBodyResponse
answer = body_of_size ResponseCode.ok 1 set_body_default

abbrev asking : Command SingleBodyResponse
asking = record {
  key = [];
  serialize = returns (1 ∷ []);
  header_delimiter = after 1;
  deserialize_header = λ header. returns answer;
}

send_datagrams_example :
    send (udp sevens network) asking (link sevens network (at (49 ∷ []) [] 0 []) [] 0) ≡ (
      link sevens network
          (at (49 ∷ []) [] 7 [])
          (packet_bytes (record { id = 7; seq = 1; count = 1 }) (1 ∷ []))
          1,
      returns (record answer { aux = 66 ∷ [] }),
    )
unfolding parse_packet from_be
send_datagrams_example =
    send_datagrams sevens network asking (49 ∷ []) (1 ∷ []) (65 ∷ []) (66 ∷ []) (datagram 0 65)
      (datagram 1 66 ∷ []) answer (record answer { aux = 66 ∷ [] }) []
      (packet_bytes (record { id = 7; seq = 1; count = 1 }) (1 ∷ [])) 0 0 refl refl
      (ground arith, refl, (ground arith, refl, tt)) (refl, refl) refl refl
      (unfold set_single_body set_body_default in refl)

-- A network that loses every datagram, and keeps it.
abbrev silence : Network Bytes
silence octets s = (octets, written [])

abbrev asked : Bytes
asked = packet_bytes (record { id = 7; seq = 1; count = 1 }) (1 ∷ [])
