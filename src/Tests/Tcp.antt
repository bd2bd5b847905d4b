-- ===== src/Tests/Tcp.antt =====
-- src/io/connection.cc: reads and exchanges over TCP connections whose octets come in pieces.
use mcache_client.Prelude.{refl, true, List, [], ◌∷◌, ◌++◌, Bytes, codes, starts_with}
use mcache_client.Error.{ResponseCode, returns}
use mcache_client.Io.Search.{split_first}
use mcache_client.Io.Tcp.{Arrival, chunk, connected, Peer, Tcp, up_to, read_until, tcp, written}
use mcache_client.Io.Tcp.Exchange.{Answered, send_exchange}
use mcache_client.Io.Tcp.Stream.{Reads, read_until-Reads}
use mcache_client.Proto.Command.{Command, behind, send}
use mcache_client.Proto.Response.{
  SingleBodyResponse, body_of_size, set_body_default, single_body_response, set_single_body,
}

-- The delimiter comes in two pieces.
abbrev in_pieces : Tcp Bytes
in_pieces = record {
  addr = codes "first:11211";
  is_open = true;
  input = codes "VAL";
  incoming = chunk (codes "UE" ++ 13 ∷ []) ∷ chunk (10 ∷ codes "more") ∷ [];
  peer = [];
}

abbrev pub line_end : Bytes
line_end = 13 ∷ 10 ∷ []

read_until-Reads_example : Reads (up_to line_end) in_pieces (read_until line_end in_pieces)
read_until-Reads_example = read_until-Reads line_end in_pieces refl

-- A server that keeps the last packet, and answers each with two pieces.
abbrev pub reply : List Arrival
reply = chunk (codes "OK" ++ 13 ∷ []) ∷ chunk (10 ∷ 65 ∷ 66 ∷ []) ∷ []

abbrev keeper : Peer Bytes
keeper = record { connect = λ s. connected []; accept = λ packet s. (packet, written reply) }

abbrev pub answer : SingleBodyResponse
answer = body_of_size ResponseCode.ok 2 set_body_default

abbrev pub asking : Command SingleBodyResponse
asking = record {
  key = [];
  serialize = returns (codes "ask");
  header_delimiter = behind line_end;
  deserialize_header = λ header. returns answer;
}

abbrev idle : Tcp Bytes
idle = record { addr = codes "first:11211"; is_open = true; input = []; incoming = []; peer = [] }

send_exchange_example :
    Answered keeper
      (record answer { aux = codes "AB" })
      (codes "ask")
      (send (tcp keeper) asking idle)
send_exchange_example =
    send_exchange keeper asking (codes "ask") (codes "OK" ++ line_end) (codes "AB") answer
      (record answer { aux = codes "AB" }) (codes "ask") reply idle
      (record { is_open = refl; flows = tt; drained = refl }) refl refl tt (unfold codes in refl)
      (unfold codes up_to split_first starts_with in refl) refl (unfold codes in refl)
      (unfold codes set_single_body set_body_default in refl)
