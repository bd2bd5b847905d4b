-- ===== src/Cluster/Whole/Typed.antt =====
-- include/mcache/client.h: values of other types through a new client.
use mcache_client.Prelude.{ℕ, ◌^◌, ◌<◌, ◌≡◌, ◌∙◌, ap, Bool, List, Bytes, length, All}
use mcache_client.Error.{returns}
use mcache_client.Client as Client
use mcache_client.Client.{Servers}
use mcache_client.Client.Operations.{set, get}
use mcache_client.Client.Operations.Typed.{Conversion, found_as, set_as}
use mcache_client.Cluster.{cluster}
use mcache_client.Cluster.Memcached.{Memcached}
use mcache_client.Cluster.RoundTrip.{Storable}
use mcache_client.Cluster.Whole.{Whole, new_client, walk}
use mcache_client.Cluster.Whole.Fresh.{IsAddress, new_client-set-get}
use mcache_client.Io.Tcp.{Peer}
use mcache_client.Pool.ConsistentHashing as ConsistentHashing
use mcache_client.Proto.Bin.Api.{get_command, set_command}
use mcache_client.Proto.Command.{◌>>=◌, lift, >>=-of-returns}
use mcache_client.Proto.Options.{Options}
use mcache_client.Proto.Response.{single_body_response, single_retrieval_response}
use mcache_client.Proto.Zlib.{ZlibLibrary, Inflates}
use mcache_client.Server.Proxy as Proxy

module _ {P : Type 0} (server : Peer P) (mem : Memcached server) (max : ℕ) (scfg : Proxy.Config)
    (clock : ℕ → ℕ) (conf : Client.Config) (hashf : Bytes → ℕ → ℕ) (zlib : ZlibLibrary) {T : Type 0}
    (cnv : Conversion T) where
  abbrev all : Servers
  all = cluster server max scfg clock

  -- A set of the value returns, and what a get behind it finds is converted back to the value.
  abbrev pub GetsBackAs : Bytes → T → Options → Whole P max → Type 0
  GetsBackAs key value opts client =
      let servers = walk hashf client.ring in
      let after =
        set_as all conf servers cnv (λ octets. set_command zlib key octets opts) value
          client.world in
      (after.1 ≡ returns tt)
      × (((get all conf servers (get_command zlib key) >>= λ found. lift (found_as cnv found))
            after.0).1
          ≡ returns value)

  -- A value of any type that its conversion takes to octets and back is what a get returns behind a set
  -- of it, through a client that was just constructed, where the octets fit (`Storable`), no expiration is asked for and the
  -- servers, the addresses, the pool and zlib are as for octets.
  pub new_client-set_as-get :
      (pcfg : ConsistentHashing.Config) (s : P) (addrs : List Bytes) (initialized : Bool)
      (client : Whole P max) (key octets : Bytes) (value : T) (opts : Options)
      → new_client hashf initialized pcfg s addrs ≡ returns client
      → All IsAddress addrs
      → length addrs < 2 ^ 32
      → 0 < pcfg.virtual_nodes
      → 0 < conf.max_continues
      → Storable mem.item_limit zlib key octets opts
      → opts.expiration ≡ 0
      → Inflates zlib
      → cnv.to_bytes value ≡ returns octets
      → cnv.from_bytes octets ≡ returns value
      → GetsBackAs key value opts client
  unfolding set_as found_as
  new_client-set_as-get pcfg s addrs initialized client key octets value opts made good few
        some_nodes some_tries k lasts inf there back =
      let (stored, found) =
        new_client-set-get server mem max scfg clock conf hashf zlib pcfg s addrs initialized client
          key octets opts made good few some_nodes some_tries k lasts inf in
      let servers = walk hashf client.ring in
      let after = (set all conf servers (set_command zlib key octets opts) client.world).0 in
      rw there (
        stored,
        ap (λ q. q.1)
              (>>=-of-returns (get all conf servers (get_command zlib key))
                (λ f. lift (found_as cnv f)) after found)
            ∙ back,
      )
