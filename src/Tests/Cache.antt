-- ===== src/Tests/Cache.antt =====
-- include/mcache/client.h: a new client of the two servers that keep what is set, used as a cache.
use mcache_client.Prelude.{
  ℕ, ◌≡◌, refl, sym, ◌∙◌, ap, Bool-cases, inl, inr, List, [], ◌∷◌, Option, none, some, codes, arith,
  Bytes, true, false,
}
use mcache_client.Client as Client
use mcache_client.Cluster.Cache.{Request, empty, same_bytes, same_bytes_eq}
use mcache_client.Cluster.Cache.Server.{Spares, Caching}
use mcache_client.Cluster.Cache.Refinement.{Refines, new_client-Refines}
use mcache_client.Cluster.Whole as Whole
use mcache_client.Io.Address.{parse_address}
use mcache_client.Io.Tcp.{chunk}
use mcache_client.Proto.Key.{check_key, is_invalid}
use mcache_client.Proto.Bin.Header.{header_bytes}
use mcache_client.Proto.Bin.Framing as Framing
use mcache_client.Server.Proxy as Proxy
use mcache_client.Tests.Cluster.{
  Items, answer, removal, serve, forget, look_up, keeper, keeper_memcached, addresses, packed,
  letter-Storable,
}
use mcache_client.Tests.Fresh.{client, client_made, one_node_each}
use mcache_client.Tests.Pool.{toy_hash}
use mcache_client.Tests.Proto.{storing, storing-Inflates, reply, reply-IsReply, short_key}

look_up-forget_self : (s : Items) (key : Bytes) → look_up (forget key s) key ≡ none
unfolding look_up forget
look_up-forget_self [] key = refl
look_up-forget_self ((k, v) ∷ rest) key = elim (Bool-cases (same_bytes k key)) [
  | inl same ↦ rw same (look_up-forget_self rest key)
  | inr differ ↦ rw (differ, differ) (look_up-forget_self rest key)
]

look_up-forget :
    (s : Items) (key other : Bytes) (e : ℕ × Bytes)
    → look_up (forget key s) other ≡ some e
    → look_up s other ≡ some e
unfolding look_up forget
look_up-forget [] key other e h = h
look_up-forget ((k, v) ∷ rest) key other e h = elim (Bool-cases (same_bytes k key)) [
  | inl same ↦
      let later = look_up-forget rest key other e (rw same at h) in
      elim (Bool-cases (same_bytes k other)) [
        | inl hits ↦
            let eq : key ≡ other = sym (same_bytes_eq k key same) ∙ same_bytes_eq k other hits in
            let gone : look_up (forget key rest) other ≡ none =
              ap (look_up (forget key rest)) (sym eq) ∙ look_up-forget_self rest key in
            let h' = rw same at h in absurd cc
        | inr differ ↦ rw differ later
      ]
  | inr kept ↦ elim (Bool-cases (same_bytes k other)) [
    | inl hits ↦ rw hits (rw hits at (rw kept at h))
    | inr differ ↦ rw differ (look_up-forget rest key other e (rw differ at (rw kept at h)))
  ]
]

answer_same : (s : Items) (o : Option (ℕ × Bytes)) → (answer s o).0 ≡ s
answer_same s none = refl
answer_same s (some (flags, value)) = refl

removal-forget :
    (key : Bytes) (s : Items) (o : Option (ℕ × Bytes)) → (removal key s o).0 ≡ forget key s
removal-forget key s none = refl
removal-forget key s (some v) = refl

serve_keeps :
    (q : Framing.Request) (s : Items) (key : Bytes) (e : ℕ × Bytes)
    → Spares q key
    → look_up (serve q s).0 key ≡ some e
    → look_up s key ≡ some e
unfolding look_up
serve_keeps q s key e (inl is_get) held = rw answer_same at (rw is_get at held)
serve_keeps q s key e (inr (inl is_delete)) held =
    look_up-forget s q.key key e (rw removal-forget at (rw is_delete at held))
serve_keeps q s key e (inr (inr (is_set, ne))) held =
    let differ : same_bytes q.key key ≡ false = elim (Bool-cases (same_bytes q.key key)) [
      | inl same ↦ absurd (ne (same_bytes_eq q.key key same))
      | inr other ↦ other
    ] in
    rw differ at (rw is_set at held)

unfoldable keeper_caching : Caching keeper keeper_memcached
unfolding keeper_memcached look_up
keeper_caching = record {
  keeps = λ packet q s key e got spares held. serve_keeps q s key e spares (rw got at held);
  misses = λ packet key s q lacking. (
    reply 1 0 0,
    [],
    record {
      next = s;
      more = chunk (header_bytes (reply 1 0 0)) ∷ [];
      taken = rw (q.reads, q.opcode, q.about, lacking) refl;
      flows = tt;
      same = refl;
      reply = reply-IsReply 1 0 0 (ground arith) (ground arith) (ground arith);
      size = refl;
      outcome = refl;
    },
  );
  deletes = λ packet key s e q held. (
    reply 0 0 0,
    record {
      next = forget key s;
      more = chunk (header_bytes (reply 0 0 0)) ∷ [];
      taken = rw (q.reads, q.opcode, q.about, held) refl;
      flows = tt;
      same = refl;
      reply = reply-IsReply 0 0 0 (ground arith) (ground arith) (ground arith);
      size = refl;
      outcome = refl;
    },
    look_up-forget_self s key,
  );
  lacks = λ packet key s q lacking. (
    reply 1 0 0,
    [],
    record {
      next = forget key s;
      more = chunk (header_bytes (reply 1 0 0)) ∷ [];
      taken = rw (q.reads, q.opcode, q.about, lacking) refl;
      flows = tt;
      same = refl;
      reply = reply-IsReply 1 0 0 (ground arith) (ground arith) (ground arith);
      size = refl;
      outcome = refl;
    },
    look_up-forget_self s key,
  );
}

abbrev requests : List Request
requests =
    Request.put short_key (65 ∷ []) packed
    ∷ Request.fetch short_key
    ∷ Request.remove short_key
    ∷ Request.fetch short_key
    ∷ []

new_client-Refines_example :
    Refines keeper keeper_memcached keeper_caching 2 Proxy.default_config
      (λ n. n)
      Client.default_config
      storing
      (Whole.walk toy_hash client.ring)
      2
      empty
      requests
      client.world
unfolding keeper_memcached look_up
new_client-Refines_example =
    new_client-Refines keeper keeper_memcached keeper_caching 2 Proxy.default_config (λ n. n)
      Client.default_config storing toy_hash one_node_each [] addresses true client requests
      client_made
      (
        ((codes "first", codes "11211"), unfold parse_address codes in refl),
        (((codes "second", codes "11211"), unfold parse_address codes in refl), tt),
      )
      (ground arith) (ground arith) (ground arith) (λ key. refl) storing-Inflates
      (
        letter-Storable,
        (
          (unfold check_key is_invalid in refl, λ e. cc),
          (
            (unfold check_key is_invalid in refl, λ e. cc),
            ((unfold check_key is_invalid in refl, λ e. cc), tt),
          ),
        ),
      )
