-- ===== src/Tests/Recovery.antt =====
-- include/mcache/server-proxy.h: a dead server that comes back.
use mcache_client.Prelude.{ℕ, Bytes, ap, ◌∙◌, ◌≡◌, refl, true, false, [], ◌∷◌, some, arith, codes}
use mcache_client.Error.{ResponseCode, returns}
use mcache_client.Client as Client
use mcache_client.Client.{Servers}
use mcache_client.Cluster.{World}
use mcache_client.Cluster.Healthy.{IsDue, Done, run_recovers}
use mcache_client.Cluster.RoundTrip.{constructed, set_serialized}
use mcache_client.Cluster.Exchange.{Answers}
use mcache_client.Cluster.Memcached.Stored.{set-Answers}
use mcache_client.Proto.Bin.Commands.{StorageCommand, storage_command, set_code}
use mcache_client.Client.{run}
use mcache_client.Io.Address.{parse_address}
use mcache_client.Proto.Key.{check_key}
use mcache_client.Proto.Response.{
  SingleBodyResponse, single_body_response, single_retrieval_response,
}
use mcache_client.Proto.Bin.Api.{stored_by}
use mcache_client.Server.Proxy as Proxy
use mcache_client.Tests.Proto.{storing, short_key}
use mcache_client.Tests.Cluster.{
  Items, look_up, keeper, keeper_memcached, packed, letter-Storable, two,
}

-- The second server marked dead, ten ticks before its quarantine ends.
abbrev dead_second : World Items 2
dead_second = record {
  nodes =
      record {
        addr = codes "first:11211";
        proxy = record { shared = Proxy.new_shared; connections = [] };
        peer = [];
      }
      ∷ record {
        addr = codes "second:11211";
        proxy = record {
          shared = record { restoration = 10; dead = true; fails = 1; locked = false };
          connections = [];
        };
        peer = [];
      }
      ∷ [];
  readings = 10;
}

dead_second-IsDue : IsDue keeper 2 Proxy.default_config (λ n. n) 1 [] dead_second
dead_second-IsDue = (
  record {
    node = _;
    there = refl;
    idle = tt;
    dest = (codes "second", codes "11211");
    address = unfold parse_address codes in refl;
    state = refl;
  },
  refl,
  ground arith,
  refl,
)

letter_sent :
    (c : StorageCommand) × (storage_command storing true short_key (65 ∷ []) packed ≡ returns c)
    × (c.key ≡ short_key)
letter_sent =
    constructed storing short_key (65 ∷ []) letter-Storable.sent packed letter-Storable.is_sent

abbrev command : StorageCommand
command = letter_sent.0

letter_answered :
    (s' : Items) × (r : SingleBodyResponse) × Answers keeper (stored_by set_code command) [] s' r
    × (r.status ≡ ResponseCode.stored)
    × ((e : ℕ × Bytes) → look_up s' short_key ≡ some e → e ≡ (65536, letter-Storable.sent))
    × (packed.expiration ≡ 0 → look_up s' short_key ≡ some (65536, letter-Storable.sent))
unfolding keeper_memcached
letter_answered =
    set-Answers keeper keeper_memcached storing short_key (65 ∷ []) letter-Storable.sent
      ((set_serialized command (ap check_key letter_sent.2 ∙ letter-Storable.passes)).0) packed
      command [] letter_sent.1 letter-Storable.is_sent
      ((set_serialized command (ap check_key letter_sent.2 ∙ letter-Storable.passes)).1)
      letter-Storable.named refl (ground arith) letter-Storable.has_room letter-Storable.sent_fits

letter_stored :
    (s' : Items) × (r : SingleBodyResponse) × Answers keeper (stored_by set_code command) [] s' r
    × (r.status ≡ ResponseCode.stored)
    × (look_up s' short_key ≡ some (65536, letter-Storable.sent))
letter_stored =
    let (s', r, a, status, only, held) = letter_answered in (s', r, a, status, held refl)

run_recovers_example :
    Done keeper 2 Proxy.default_config
      (λ n. n)
      (stored_by set_code command)
      Client.default_config
      false
      1
      (0 ∷ [])
      dead_second
      []
      letter_stored.0
      letter_stored.1
      (run two Client.default_config (stored_by set_code command) false (1 ∷ 0 ∷ []) dead_second)
run_recovers_example =
    run_recovers keeper 2 Proxy.default_config (λ n. n) (stored_by set_code command)
      Client.default_config false 1 (0 ∷ []) dead_second [] letter_stored.0 letter_stored.1 refl
      dead_second-IsDue letter_stored.2 ((λ e. cc (letter_stored.3)), (λ e. cc (letter_stored.3)))
      (ground arith) (ground arith)
