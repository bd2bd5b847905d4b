-- ===== src/Tests/TextCluster.antt =====
-- include/mcache/server-proxies.h over include/mcache/proto/txt.h: a server that keeps what is set in a list and
-- speaks the text protocol, and a client of it.
use mcache_client.Prelude.{
  ℕ, ◌≡◌, ◌≢◌, refl, ◌∙◌, ap, true, false, List, [], ◌∷◌, ◌++◌, append-nil, Option, none, some,
  if◌then◌else◌, arith, sym, Bytes, codes, length, get_elem?,
}
use mathlib.Core.Option.{some-injective}
use mcache_client.Error.{returns}
use mcache_client.Client as Client
use mcache_client.Client.{Servers}
use mcache_client.Client.Operations.{set, get}
use mcache_client.Cluster.{World, make_nodes, cluster}
use mcache_client.Cluster.Healthy.{IsUp}
use mcache_client.Cluster.Text.{TextServer}
use mcache_client.Cluster.Text.RoundTrip.{TextStorable, set-get_text}
use mcache_client.Io.Address.{parse_address}
use mcache_client.Io.Tcp.{Peer, Writing, chunk, connected, failed, written}
use mcache_client.Proto.Key.{check_key, is_invalid}
use mcache_client.Proto.Options.{Options, is_compressed}
use mcache_client.Proto.Response.{single_response, single_retrieval_response}
use mcache_client.Proto.Txt.Api.{get_command, set_command}
use mcache_client.Proto.Txt.Lines.{Stored, read_stored, read_cas}
use mcache_client.Proto.Txt.Requests.{line_end}
use mcache_client.Proto.Txt.Responses.{and_then}
use mcache_client.Proto.Txt.Retrievals.{read_retrieval}
use mcache_client.Proto.Txt.Streams.{read_word, read_number}
use mcache_client.Proto.Txt.Values.{value_line, footer}
use mcache_client.Proto.Zlib.{compress, le32}
use mcache_client.Server.Proxy as Proxy
use mcache_client.Cluster.Cache.{same_bytes, same_bytes_refl}
use mcache_client.Tests.Cluster.{Items, look_up}
use mcache_client.Tests.Proto.{storing, storing-Inflates, short_key}

-- What a chain of reads that succeeded has read first.
and_then-some :
    {A B : Type 0} (o : Option (A × Bytes)) (next : A → Bytes → Option B) {b : B}
    → and_then o none next ≡ some b
    → (a : A) × (rest : Bytes) × (o ≡ some (a, rest)) × (next a rest ≡ some b)
and_then-some none next e = absurd cc
and_then-some (some (a, rest)) next e = (a, rest, refl, e)

abbrev name_of : Option Stored → Bytes
name_of none = []
name_of (some q) = q.name

abbrev word_of : Option (Bytes × Bytes) → Bytes
word_of none = []
word_of (some (name, key)) = name

stored_word :
    (s : Bytes) (q : Stored)
    → read_stored s ≡ some q
    → (t : Bytes) × (read_word s ≡ some (q.name, t))
unfolding read_stored
stored_word s q e =
    let (name, s1, first, e1) = and_then-some (read_word s) _ e in
    let (key, s2, second, e2) = and_then-some (read_word s1) _ e1 in
    let (flags, s3, third, e3) = and_then-some (read_number 32 s2) _ e2 in
    let (expiration, s4, fourth, e4) = and_then-some (read_number 64 s3) _ e3 in
    let (bytes, s5, fifth, e5) = and_then-some (read_number 64 s4) _ e4 in
    let (cas, s6, sixth, e6) = and_then-some (read_cas s5) _ e5 in
    let same : name ≡ q.name = ap (λ o. name_of o) e6 in (s1, first ∙ ap (λ n. some (n, s1)) same)

retrieval_word :
    (s name key : Bytes)
    → read_retrieval s ≡ some (name, key)
    → (t : Bytes) × (read_word s ≡ some (name, t))
unfolding read_retrieval
retrieval_word s name key e =
    let (name', s1, first, e1) = and_then-some (read_word s) _ e in
    let (key', s2, second, e2) = and_then-some (read_word s1) _ e1 in
    let same : name' ≡ name = ap (λ o. word_of o) e2 in (s1, first ∙ ap (λ n. some (n, s1)) same)

abbrev answer : Items → Bytes → Option (ℕ × Bytes) → Items × Writing
answer s key none = (s, written (chunk (codes "END" ++ line_end) ∷ []))
answer s key (some (flags, value)) =
    (s, written (chunk (value_line key flags (length value) none) ∷ chunk (value ++ footer) ∷ []))

abbrev answer_key : Items → Option (Bytes × Bytes) → Items × Writing
answer_key s none = (s, failed [])
answer_key s (some (name, key)) = answer s key (look_up s key)

abbrev keep : Items → Option Stored → Items × Writing
keep s none = (s, failed [])
keep s (some q) =
    ((q.key, (q.flags, q.value)) ∷ s, written (chunk (codes "STORED" ++ line_end) ∷ []))

-- It goes by the first word.
abbrev serve : Bytes → Items → Option (Bytes × Bytes) → Items × Writing
serve packet s none = (s, failed [])
serve packet s (some (word, rest)) =
    if same_bytes word (codes "get")
    then answer_key s (read_retrieval packet)
    else keep s (read_stored packet)

abbrev keeper : Peer Items
keeper = record {
  connect = λ s. connected [];
  accept = λ packet s. serve packet s (read_word packet);
}

set_is_not_get : (word : Bytes) → word ≡ codes "set" → same_bytes word (codes "get") ≡ false
unfolding same_bytes codes
set_is_not_get word e = rw e refl

unfoldable keeper_of_text : TextServer keeper
unfolding look_up
keeper_of_text = record {
  item_limit = 1000;
  holds = look_up;
  listens = λ s. refl;
  stores = λ packet q s got named no_cas fits. (
    record {
      next = (q.key, (q.flags, q.value)) ∷ s;
      more = chunk (codes "STORED" ++ line_end) ∷ [];
      taken =
          let (rest, word) = stored_word packet q got in
          let other = set_is_not_get q.name named in rw (word, other, got) refl;
      flows = tt;
      same = rw append-nil refl;
    },
    (λ e there. some-injective _ _ (sym there ∙ rw (same_bytes_refl q.key) refl)),
    (λ z. rw (same_bytes_refl q.key) refl),
  );
  finds = λ packet key s flags value got held fits. record {
    next = s;
    more = chunk (value_line key flags (length value) none) ∷ chunk (value ++ footer) ∷ [];
    taken =
        let (rest, word) = retrieval_word packet (codes "get") key got in
        let this = same_bytes_refl (codes "get") in rw (word, this, got, held) refl;
    flows = tt;
    same = rw append-nil refl;
  };
}

abbrev one_server : World Items 2
one_server = record { nodes = make_nodes Items 2 [] (codes "first:11211" ∷ []); readings = 0 }

first-IsUp : IsUp keeper 2 Proxy.default_config (λ n. n) 0 [] one_server
unfolding make_nodes codes
first-IsUp = (
  record {
    node = record {
      addr = codes "first:11211";
      proxy = record { shared = Proxy.new_shared; connections = [] };
      peer = [];
    };
    there = refl;
    idle = tt;
    dest = (codes "first", codes "11211");
    address = unfold parse_address codes in refl;
    state = refl;
  },
  refl,
)

abbrev packed : Options
packed = record { expiration = 0; flags = 65536; cas = 0 }

letter-TextStorable : TextStorable keeper_of_text.item_limit storing short_key (65 ∷ []) packed
unfolding keeper_of_text
letter-TextStorable = record {
  sent = 1 ∷ 0 ∷ 0 ∷ 0 ∷ 65 ∷ [];
  is_sent = unfold is_compressed compress le32 in refl;
  passes = unfold check_key is_invalid in refl;
  no_cas = refl;
  flags_fit = ground arith;
  expiration_fits = ground arith;
  value_fits = ground arith;
  sent_fits = ground arith;
  has_room = ground arith;
}

abbrev one : Servers
one = cluster keeper 2 Proxy.default_config (λ n. n)

abbrev from_first : Bytes → List ℕ
from_first key = 0 ∷ 0 ∷ []

set-get_text_example :
    let after =
      set one Client.default_config from_first
        (set_command storing short_key (65 ∷ []) packed)
        one_server in
    (after.1 ≡ returns tt)
    × ((get one Client.default_config from_first (get_command storing short_key) after.0).1
        ≡ returns (record { found = true; text = 65 ∷ []; flags = 65536; cas = 0 }))
    × ((j : ℕ) → 0 ≢ j → get_elem? after.0.nodes j ≡ get_elem? one_server.nodes j)
set-get_text_example =
    set-get_text keeper keeper_of_text 2 Proxy.default_config (λ n. n) Client.default_config
      from_first storing 97 (98 ∷ []) (65 ∷ []) packed 0 (0 ∷ []) one_server letter-TextStorable []
      storing-Inflates refl (ground arith) (ground arith) refl first-IsUp
