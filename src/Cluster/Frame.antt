-- ===== src/Cluster/Frame.antt =====
-- What a call on one server does to the others, and what the client's loop comes to at a healthy one.
use mcache_client.Prelude.{
  ℕ, suc, ◌&&◌, ◌≤◌, ◌<◌, arith, ◌≡◌, ◌≢◌, refl, ◌∙◌, ap, Bool, true, false, List, ◌∷◌, some,
  Option-cases, inl, inr, ◌==◌, get_elem?, get_elem?-set_self, get_elem?-set_other,
}
use mcache_client.Error.{ResponseCode, returns}
use mcache_client.Client.{
  Servers, Verdict, answered, goes_on, follow, judge, judge_response, try_server, run_loop,
}
use mcache_client.Client as Client
use mcache_client.Client.Loop.{run_loop_tries}
use mcache_client.Io.Tcp.{Peer}
use mcache_client.Proto.Command.{Command}
use mcache_client.Proto.Response.{IsResponse}
use mcache_client.Server.Lock.{try_lock}
use mcache_client.Server.Proxy as Proxy
use mcache_client.Cluster.{Node, World, on_node, node_callable, callable, lifespan}

module _ {P : Type 0} (server : Peer P) (max : ℕ) (cfg : Proxy.Config) (clock : ℕ → ℕ) where
  pub on_node_other :
      {A : Type 0} (idx j : ℕ) (call : ℕ → Node P max → Node P max × A) (fault : A)
      (w : World P max)
      → idx ≢ j
      → get_elem? (on_node server max cfg clock idx call fault w).0.nodes j ≡ get_elem? w.nodes j
  on_node_other idx j call fault w ne = elim (Option-cases (get_elem? w.nodes idx)) [
    | inl outside ↦ rw (outside, on_node) refl
    | inr (n, there) ↦ rw (there, on_node) (get_elem?-set_other w.nodes idx j _ ne)
  ]

  pub on_node_at :
      {A : Type 0} (idx : ℕ) (call : ℕ → Node P max → Node P max × A) (fault : A) (w : World P max)
      (n : Node P max)
      → get_elem? w.nodes idx ≡ some n
      → ((on_node server max cfg clock idx call fault w).1 ≡ (call (clock w.readings) n).1)
        × (get_elem? (on_node server max cfg clock idx call fault w).0.nodes idx
            ≡ some (call (clock w.readings) n).0)
  on_node_at idx call fault w n e = rw (e, on_node) (refl, get_elem?-set_self w.nodes idx n _ e)

  pub callable_alive :
      (idx : ℕ) (w : World P max) (n : Node P max)
      → get_elem? w.nodes idx ≡ some n
      → n.proxy.shared.dead ≡ false
      → ((callable server max cfg clock idx w).1 ≡ true)
        × (get_elem? (callable server max cfg clock idx w).0.nodes idx ≡ some n)
  unfolding callable
  callable_alive idx w n e alive =
      let kept : node_callable server max cfg clock (clock w.readings) n ≡ (n, true) =
        unfold node_callable Proxy.callable in rw alive refl in
      let (allowed, there) = on_node_at idx (node_callable server max cfg clock) true w n e in
      (allowed ∙ ap (λ q. q.1) kept, there ∙ ap (λ (q : Node P max × Bool). some q.0) kept)

  -- A dead server whose quarantine is over, with nobody in its reconnect section.
  pub callable_due :
      (idx : ℕ) (w : World P max) (n : Node P max)
      → get_elem? w.nodes idx ≡ some n
      → n.proxy.shared.restoration ≤ clock w.readings
      → n.proxy.shared.locked ≡ false
      → let n' = (node_callable server max cfg clock (clock w.readings) n).0 in
        ((callable server max cfg clock idx w).1 ≡ true)
        × (get_elem? (callable server max cfg clock idx w).0.nodes idx ≡ some n')
        × (n'.addr ≡ n.addr)
        × (n'.peer ≡ n.peer)
        × (n'.proxy.connections ≡ n.proxy.connections)
  unfolding callable node_callable Proxy.callable Proxy.callable_guarded try_lock
  callable_due idx w n e due free =
      let (allowed, there) = on_node_at idx (node_callable server max cfg clock) true w n e in
      (allowed ∙ ground arith, there, refl, refl, refl)

module _ (servers : Servers) (conf : Client.Config) {R : Type 0} ⦃i : IsResponse R⦄ where
  -- A code that ends the client's walk: neither of a broken connection nor of a miss.
  abbrev pub IsFinal : R → Type 0
  IsFinal r = (i.code r ≢ ResponseCode.io_error) × (i.code r ≢ ResponseCode.not_found)

  judge_response-IsFinal :
      (h404 : Bool) (conts lifespan : ℕ) (r : R) (c : ResponseCode)
      → c ≢ ResponseCode.io_error
      → c ≢ ResponseCode.not_found
      → judge_response servers conf h404 conts lifespan r c ≡ answered (returns r)
  unfolding judge_response
  judge_response-IsFinal h404 conts lifespan r ResponseCode.io_error a b = absurd (a refl)
  judge_response-IsFinal h404 conts lifespan r ResponseCode.not_found a b = absurd (b refl)
  judge_response-IsFinal h404 conts lifespan r _ a b = refl

  module _ (command : Command R) (h404 : Bool) (idx : ℕ) (rest : List ℕ) (w : servers.World) where
    -- Where the next server of the walk may be called and gives a final answer, the loop asks no other.
    pub run_loop_first :
        (prev conts : ℕ) (none_left : Bool) (r : R)
        → conts < conf.max_continues
        → (idx == prev) ≡ false
        → (servers.callable idx w).1 ≡ true
        → (servers.send R command idx (servers.callable idx w).0).1 ≡ returns r
        → IsFinal r
        → run_loop servers conf command h404 (idx ∷ rest) prev conts none_left w
          ≡ ((servers.send R command idx (servers.callable idx w).0).0, returns r)
    unfolding try_server judge
    run_loop_first prev conts none_left r some_tries fresh alive e final =
        let sent = (servers.send R command idx (servers.callable idx w).0).0 in
        run_loop_tries servers conf command h404 idx rest prev conts none_left w some_tries fresh
        ∙ rw
            (
              alive,
              e,
              judge_response-IsFinal h404 conts (servers.lifespan idx sent) r (i.code r) final.0
                  final.1,
            )
            refl

    -- Where it may be called and the connection to it breaks, the loop goes on with the next one.
    pub run_loop_broken :
        (prev conts : ℕ) (none_left : Bool) (r : R)
        → conts < conf.max_continues
        → (idx == prev) ≡ false
        → (servers.callable idx w).1 ≡ true
        → (servers.send R command idx (servers.callable idx w).0).1 ≡ returns r
        → i.code r ≡ ResponseCode.io_error
        → run_loop servers conf command h404 (idx ∷ rest) prev conts none_left w
          ≡ run_loop servers conf command h404 rest idx
              (suc conts)
              (none_left && true)
              (servers.send R command idx (servers.callable idx w).0).0
    unfolding try_server judge judge_response
    run_loop_broken prev conts none_left r some_tries fresh alive e broken =
        run_loop_tries servers conf command h404 idx rest prev conts none_left w some_tries fresh
        ∙ rw (alive, e, broken) refl
