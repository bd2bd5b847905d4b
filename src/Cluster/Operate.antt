-- ===== src/Cluster/Operate.antt =====
-- include/mcache/client.h: an operation of the client at a server that answers.
use mcache_client.Prelude.{
  ℕ, ◌-◌, ◌^◌, ◌<◌, ◌≡◌, ◌≢◌, refl, ap, Bool, false, List, ◌∷◌, ◌==◌, Bytes, get_elem?,
}
use mcache_client.Error.{ResponseCode, Result, returns, ◌>>=◌}
use mcache_client.Client as Client
use mcache_client.Client.{Servers, run}
use mcache_client.Client.Operations.{operate}
use mcache_client.Cluster.{World, cluster}
use mcache_client.Cluster.Exchange.{Answers}
use mcache_client.Cluster.Frame.{IsFinal}
use mcache_client.Cluster.Healthy.{IsUp, Listens, run_answers}
use mcache_client.Io.Tcp.{Peer}
use mcache_client.Proto.Command.{Command, lift, >>=-of-returns}
use mcache_client.Proto.Response.{IsResponse, single_body_response, single_retrieval_response}
use mcache_client.Server.Proxy as Proxy

pub bound :
    {A B : Type 0} (m : Result A) (f : A → Result B) {a : A} → m ≡ returns a → (m >>= f) ≡ f a
bound m f e = ap (λ r. r >>= f) e

pub operate_returned :
    (servers : Servers) (conf : Client.Config) (walk : Bytes → List ℕ) {R A : Type 0}
    ⦃i : IsResponse R⦄ (command : Command R) (h404 : Bool) (outcome : R → ResponseCode → Result A)
    (w : servers.World) (r : R)
    → (run servers conf command h404 (walk command.key) w).1 ≡ returns r
    → operate servers conf walk (returns command) h404 outcome w
      ≡ ((run servers conf command h404 (walk command.key) w).0, outcome r (i.code r))
unfolding operate
operate_returned servers conf walk ⦃i⦄ command h404 outcome w r e =
    >>=-of-returns (run servers conf command h404 (walk command.key))
      (λ response. lift (outcome response (i.code response))) w e

module _ {P : Type 0} (server : Peer P) (max : ℕ) (cfg : Proxy.Config) (clock : ℕ → ℕ)
    (conf : Client.Config) (walk : Bytes → List ℕ) where
  abbrev all : Servers
  all = cluster server max cfg clock

  -- An operation whose command the first server of its walk answers with a final code.
  pub operate_answers :
      {R A : Type 0} ⦃i : IsResponse R⦄ (command : Command R) (h404 : Bool)
      (outcome : R → ResponseCode → Result A) (idx : ℕ) (rest : List ℕ) (w : World P max) (s s' : P)
      (r : R)
      → 0 < conf.max_continues
      → (idx == 2 ^ 32 - 1) ≡ false
      → walk command.key ≡ idx ∷ rest
      → Listens server max cfg clock s
      → IsUp server max cfg clock idx s w
      → Answers server command s s' r
      → IsFinal all conf r
      → let after = operate all conf walk (returns command) h404 outcome w in
        (after.1 ≡ outcome r (i.code r))
        × IsUp server max cfg clock idx s' after.0
        × ((j : ℕ) → idx ≢ j → get_elem? after.0.nodes j ≡ get_elem? w.nodes j)
  operate_answers command h404 outcome idx rest w s s' r some_tries fresh on_walk listens up a
        final =
      let (returned, up', frame) =
        run_answers server max cfg clock command conf h404 idx rest w s s' r listens up a final
          some_tries fresh in
      let got : (run all conf command h404 (walk command.key) w).1 ≡ returns r =
        rw on_walk returned in
      rw (operate_returned all conf walk command h404 outcome w r got, on_walk) (refl, up', frame)
