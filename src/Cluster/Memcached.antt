-- ===== src/Cluster/Memcached.antt =====
-- A memcached server as its protocol describes it.
pub mod Stored
pub mod Hit
use mcache_client.Prelude.{
  ℕ, List, [], ◌+◌, ◌^◌, ◌≤◌, ◌<◌, ◌≡◌, ◌≢◌, refl, sym, ◌∙◌, ap, true, false, Bool-cases, inl, inr,
  List, [], ◌++◌, append-nil, Option, some, arith, ◌==◌, Bytes, be, from_be, from_be-be, length-be,
  length, length-append, take, take_seam, drop,
}
use mcache_client.Error.{ResponseCode, returns, returns_injective}
use mcache_client.Io.Tcp.{Arrival, connected, Peer, written}
use mcache_client.Proto.Command.Steps.{completed}
use mcache_client.Io.Tcp.Flow.{Flows}
use mcache_client.Io.Tcp.Stream.{octets}
use mcache_client.Proto.Options.{Options, is_compressed}
use mcache_client.Proto.Response.{
  SingleBodyResponse, SingleRetrievalResponse, single_body_response, single_retrieval_response,
  set_retrieval_body,
}
use mcache_client.Proto.Zlib.{ZlibLibrary, Inflates}
use mcache_client.Proto.Bin.Header.{Header, header_bytes}
use mcache_client.Proto.Bin.Header.RoundTrip.{length-header_bytes}
use mcache_client.Proto.Bin.Commands.{
  StorageCommand, storage_command, serialize_storage, serialize_key, key_command, set_code,
  get_code,
}
use mcache_client.Proto.Bin.Api.{stored_by, get_command}
use mcache_client.Proto.Bin.Framing.{Request, read_request}
use mcache_client.Proto.Bin.Framing.Keyed.{read_request-serialize_key}
use mcache_client.Proto.Bin.Framing.Storage.{
  storage_extras, sent_value, read_request-serialize_storage,
}
use mcache_client.Proto.Bin.Responses.{set_retrieved_body, deserialize_retrieve}
use mcache_client.Proto.Bin.Responses.Bodies.{
  hit_body, set_retrieved_body_plain, set_retrieved_body_compressed,
}
use mcache_client.Proto.Bin.Responses.Statuses.{IsReply, with_header-reply, deserialize_plain-reply}
use mcache_client.Cluster.Exchange.{Answers}

-- The server takes a packet, goes to a state and sends a header with this status and a body, in
-- whatever pieces.
pub record Replies {P : Type 0} (server : Peer P) (packet : Bytes) (s : P) (status : ℕ) (h : Header)
    (body : Bytes) : Type 0 where
  pub next : P
  pub more : List Arrival
  pub taken : server.accept packet s ≡ (next, written more)
  pub flows : Flows more
  pub same : octets more ≡ header_bytes h ++ body
  pub reply : IsReply h
  pub size : h.body_len ≡ length body
  pub outcome : h.status ≡ status

-- The documented behaviour, for requests of this protocol: connections are taken; behind the storing of
-- a value that is not too large, its key has no other entry than this value with its flags, and has it
-- if the expiration is 0, which asks for none (another one may be over at once); and a value that is
-- held is sent back, with its flags in the extras and without the key. `holds` is what the next request
-- finds.
pub record Memcached {P : Type 0} (server : Peer P) : Type 0 where
  pub item_limit : ℕ
  pub holds : P → Bytes → Option (ℕ × Bytes)
  pub listens : (s : P) → server.connect s ≡ connected []
  pub stores :
      (packet : Bytes) (q : Request) (s : P)
      → read_request packet ≡ returns (q, [])
      → q.opcode ≡ set_code
      → q.cas ≡ 0
      → length q.extras ≡ 8
      → q.key ≢ []
      → length q.value ≤ item_limit
      → (h : Header) × (a : Replies server packet s 0 h []) × ((e : ℕ × Bytes)
          → holds a.next q.key ≡ some e
          → e ≡ (from_be (take 4 q.extras), q.value))
        × (from_be (drop 4 q.extras) ≡ 0
            → holds a.next q.key ≡ some (from_be (take 4 q.extras), q.value))
  pub finds :
      (packet : Bytes) (q : Request) (s : P) (flags : ℕ) (value : Bytes)
      → read_request packet ≡ returns (q, [])
      → q.opcode ≡ get_code
      → q.key ≢ []
      → q.extras ≡ []
      → q.value ≡ []
      → holds s q.key ≡ some (flags, value)
      → length value ≤ item_limit
      → (h : Header) × (h.extras_len ≡ 4)
        × (h.key_len ≡ 0)
        × Replies server packet s 0 h (hit_body flags [] value)
