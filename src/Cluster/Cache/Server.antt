-- ===== src/Cluster/Cache/Server.antt =====
-- What a memcached server does beyond `Memcached`: it may forget, but does not make things up; it says
pub mod Deleting
-- so when it has nothing under a key; and it deletes.
use mcache_client.Prelude.{
  ℕ, ◌+◌, ◌^◌, ◌≤◌, ◌<◌, ◌≡◌, ◌≢◌, refl, sym, ◌∙◌, ap, ◌⊎◌, inl, inr, true, List, [], ◌++◌,
  append-nil, Option, none, some, arith, ◌==◌, Bytes, length, Bool-cases,
}
use mcache_client.Error.{ResponseCode, Result, returns}
use mcache_client.Io.Tcp.{Peer}
use mcache_client.Proto.Command.Steps.{completed}
use mcache_client.Proto.Options.{Options}
use mcache_client.Proto.Response.{
  SingleBodyResponse, SingleRetrievalResponse, single_body_response, single_retrieval_response,
  set_single_body, set_retrieval_body, set_body_default, set_flagged_body_default,
}
use mcache_client.Proto.Zlib.{ZlibLibrary}
use mcache_client.Proto.Bin.Header.{Header, header_bytes}
use mcache_client.Proto.Bin.Header.RoundTrip.{length-header_bytes}
use mcache_client.Proto.Bin.Commands.{
  StorageCommand, storage_command, serialize_storage, serialize_key, serialize_delete, key_command,
  set_code, get_code, delete_code,
}
use mcache_client.Proto.Bin.Api.{stored_by, get_command, delete_command}
use mcache_client.Proto.Bin.Framing.{Request, read_request}
use mcache_client.Proto.Bin.Framing.Keyed.{read_request-serialize_key}
use mcache_client.Proto.Bin.Framing.Storage.{sent_value, read_request-serialize_storage}
use mcache_client.Proto.Bin.Responses.{translate_status, deserialize_retrieve, deserialize_plain}
use mcache_client.Proto.Bin.Responses.Statuses.{IsReply, with_header-reply, deserialize_plain-reply}
use mcache_client.Cluster.Exchange.{Answers}
use mcache_client.Cluster.Memcached.{Memcached, Replies}

-- A request that sets nothing under this key.
abbrev pub Spares : Request → Bytes → Type 0
Spares q key =
    (q.opcode ≡ get_code) ⊎ (q.opcode ≡ delete_code) ⊎ ((q.opcode ≡ set_code) × (q.key ≢ key))

-- A request that consists of an operation code and a key.
pub record Asks (packet : Bytes) (code : ℕ) (key : Bytes) : Type 0 where
  pub request : Request
  pub reads : read_request packet ≡ returns (request, [])
  pub opcode : request.opcode ≡ code
  pub about : request.key ≡ key
  pub named : key ≢ []
  pub extras : request.extras ≡ []
  pub value : request.value ≡ []

pub record Caching {P : Type 0} (server : Peer P) (mem : Memcached server) : Type 0 where
  pub keeps :
      (packet : Bytes) (q : Request) (s : P) (key : Bytes) (e : ℕ × Bytes)
      → read_request packet ≡ returns (q, [])
      → Spares q key
      → mem.holds (server.accept packet s).0 key ≡ some e
      → mem.holds s key ≡ some e
  pub misses :
      (packet key : Bytes) (s : P)
      → Asks packet get_code key
      → mem.holds s key ≡ none
      → (h : Header) × (body : Bytes) × Replies server packet s 1 h body
  pub deletes :
      (packet key : Bytes) (s : P) (e : ℕ × Bytes)
      → Asks packet delete_code key
      → mem.holds s key ≡ some e
      → (h : Header) × (a : Replies server packet s 0 h []) × (mem.holds a.next key ≡ none)
  pub lacks :
      (packet key : Bytes) (s : P)
      → Asks packet delete_code key
      → mem.holds s key ≡ none
      → (h : Header) × (body : Bytes) × (a : Replies server packet s 1 h body) × (mem.holds a.next
            key
          ≡ none)

pub asks :
    (key packet : Bytes) (code : ℕ)
    → code < 2 ^ 8
    → key ≢ []
    → serialize_key (key_command key) code ≡ returns packet
    → Asks packet code key
asks key packet code small named serial = record {
  request = record { opcode = code; cas = 0; extras = []; key = key; value = [] };
  reads = rw append-nil at (read_request-serialize_key key packet [] code small serial);
  opcode = refl;
  about = refl;
  named = named;
  extras = refl;
  value = refl;
}

-- A response that carries the server's message.
retrieval_completed :
    (r : SingleRetrievalResponse) (body : Bytes)
    → r.set_body_callback ≡ set_flagged_body_default
    → (r' : SingleRetrievalResponse) × (completed r body ≡ returns r') × (r'.status ≡ r.status)
unfolding set_retrieval_body set_flagged_body_default
retrieval_completed r body e = elim (Bool-cases (r.bytes == 0)) [
  | inl none' ↦ (r, rw none' refl, refl)
  | inr some' ↦ (record r { flags = r.flags; aux = body }, rw (some', e) refl, refl)
]

pub body_completed :
    (r : SingleBodyResponse) (body : Bytes)
    → r.set_body_callback ≡ set_body_default
    → (r' : SingleBodyResponse) × (completed r body ≡ returns r') × (r'.status ≡ r.status)
unfolding set_single_body set_body_default
body_completed r body e = elim (Bool-cases (r.bytes == 0)) [
  | inl none' ↦ (r, rw none' refl, refl)
  | inr some' ↦ (record r { aux = body }, rw (some', e) refl, refl)
]

module _ {P : Type 0} (server : Peer P) (mem : Memcached server) (cache : Caching server mem)
    (zlib : ZlibLibrary) where
  -- What the server still holds behind a command was there before.
  abbrev pub Loses : P → P → Type 0
  Loses s s' = (key : Bytes) (e : ℕ × Bytes) → mem.holds s' key ≡ some e → mem.holds s key ≡ some e

  pub get-Loses :
      (key : Bytes) (s s' : P) (r : SingleRetrievalResponse)
      → Answers server (get_command zlib key) s s' r
      → Loses s s'
  unfolding get_command
  get-Loses key s s' r a other e held =
      let got =
        rw append-nil at
          (read_request-serialize_key key a.packet [] get_code (ground arith) a.serial) in
      cache.keeps a.packet _ s other e got (inl refl) (rw (a.taken) held)

  pub delete-Loses :
      (key : Bytes) (s s' : P) (r : SingleBodyResponse)
      → Answers server (delete_command key) s s' r
      → Loses s s'
  unfolding delete_command serialize_delete
  delete-Loses key s s' r a other e held =
      let got =
        rw append-nil at
          (read_request-serialize_key key a.packet [] delete_code (ground arith) a.serial) in
      cache.keeps a.packet _ s other e got (inr (inl refl)) (rw (a.taken) held)

  -- A `set` leaves what is held under the other keys, or loses it.
  pub set_keeps :
      (key value sent : Bytes) (opts : Options) (c : StorageCommand) (s s' : P)
      (r : SingleBodyResponse)
      → storage_command zlib true key value opts ≡ returns c
      → sent_value zlib value opts ≡ returns sent
      → opts.cas ≡ 0
      → length sent + 258 < 2 ^ 32
      → Answers server (stored_by set_code c) s s' r
      → (other : Bytes) (e : ℕ × Bytes) → key ≢ other
      → mem.holds s' other ≡ some e
      → mem.holds s other ≡ some e
  unfolding stored_by
  set_keeps key value sent opts c s s' r made is_sent no_cas room a other e ne held =
      let got = rw append-nil at (
        read_request-serialize_storage zlib true key value opts c set_code sent a.packet [] made
          is_sent a.serial (ground arith) (omega arith) room) in
      cache.keeps a.packet _ s other e got (inr (inr (refl, ne))) (rw (a.taken) held)

  -- A `get` of a key that the server does not hold is answered with `not_found`.
  pub get-misses :
      (key packet : Bytes) (s : P)
      → key ≢ []
      → serialize_key (key_command key) get_code ≡ returns packet
      → mem.holds s key ≡ none
      → (s' : P) × (r : SingleRetrievalResponse) × Answers server (get_command zlib key) s s' r
        × (r.status ≡ ResponseCode.not_found)
  unfolding get_command deserialize_retrieve translate_status
  get-misses key packet s named serial lacking =
      let (h, body, a) =
        cache.misses packet key s (asks key packet get_code (ground arith) named serial) lacking in
      let r : SingleRetrievalResponse = record {
        status = ResponseCode.not_found;
        aux = [];
        flags = 0;
        cas = 0;
        bytes = h.body_len;
        set_body_callback = set_flagged_body_default;
      } in
      let (r', complete, same) = retrieval_completed r body refl in
      (
        a.next,
        r',
        record {
          packet = packet;
          header = header_bytes h;
          body = body;
          r = r;
          more = a.more;
          serial = serial;
          taken = a.taken;
          flows = a.flows;
          same = a.same;
          ends = sym (length-header_bytes h);
          parsed = with_header-reply h _ a.reply ∙ rw (a.outcome) refl;
          size = a.size;
          complete = complete;
        },
        same,
      )
