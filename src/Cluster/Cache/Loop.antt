-- ===== src/Cluster/Cache/Loop.antt =====
-- include/mcache/client.h: the client's loop at servers that are up, also where they have nothing.
pub mod Misses
use mcache_client.Prelude.{
  ℕ, suc, ◌-◌, ◌^◌, ◌≤◌, ◌<◌, All, ◌≡◌, ◌≢◌, refl, sym, ◌∙◌, ap, Bool, true, false, not, ◌&&◌, List,
  [], ◌∷◌, some, ◌==◌, inl, inr, Bool-cases, arith, ltb, Bytes, get_elem?, if◌then◌else◌, ltb→lt,
  not_ltb→le, subst, ◌⊎◌,
}
use mcache_client.Error.{ResponseCode, Exception, Result, returns, throws}
use mcache_client.Client as Client
use mcache_client.Client.{
  Servers, Verdict, answered, goes_on, follow, judge, judge_response, finish, try_server, run_loop,
  run,
}
use mcache_client.Client.Operations.{operate}
use mcache_client.Cluster.Operate.{operate_returned}
use mcache_client.Client.Loop.{run_loop_stops, run_loop_skips, run_loop_tries}
use mcache_client.Io.Address.{parse_address}
use mcache_client.Io.Tcp.{Peer}
use mcache_client.Proto.Command.{Command}
use mcache_client.Proto.Response.{IsResponse}
use mcache_client.Server.Proxy as Proxy
use mcache_client.Cluster.{World, callable, lifespan, send, cluster}
use mcache_client.Cluster.Exchange.{Answers}
use mcache_client.Cluster.Frame.{callable_alive}
use mcache_client.Cluster.Healthy.{
  IsAt, IsUp, Listens, reaches, send_answers, callable_other, send_other,
}

module _ {P : Type 0} (server : Peer P) (max : ℕ) (cfg : Proxy.Config) (clock : ℕ → ℕ) where
  abbrev pub all : Servers
  all = cluster server max cfg clock

  module _ {R : Type 0} ⦃i : IsResponse R⦄ (command : Command R) where
    -- The world behind a round at a server.
    abbrev pub round : ℕ → World P max → World P max
    round idx w =
        (send server max cfg clock R command idx (callable server max cfg clock idx w).0).0

    -- A server that is up is called, and gives its answer; the others are not touched.
    pub round_answers :
        (idx : ℕ) (w : World P max) (s s' : P) (r : R)
        → Listens server max cfg clock s
        → IsUp server max cfg clock idx s w
        → Answers server command s s' r
        → ((callable server max cfg clock idx w).1 ≡ true)
          × ((send server max cfg clock R command idx (callable server max cfg clock idx w).0).1
              ≡ returns r)
          × IsUp server max cfg clock idx s' (round idx w)
          × ((j : ℕ) → idx ≢ j → get_elem? (round idx w).nodes j ≡ get_elem? w.nodes j)
    round_answers idx w s s' r listens (up, alive) a =
        let n = up.node in
        let w1 = (callable server max cfg clock idx w).0 in
        let (allowed, there) = callable_alive server max cfg clock idx w n up.there alive in
        let a' : Answers server command n.peer s' r = rw (up.state) a in
        let (returned, (n', there', healthy, moved, same)) =
          send_answers server max cfg clock command idx w1 n s' r there up.idle
            (reaches server max cfg clock n up.dest (rw (up.state) listens) up.address) a' in
        (
          allowed,
          returned,
          (
            record {
              node = n';
              there = there';
              idle = healthy.idle;
              dest = up.dest;
              address = ap parse_address same ∙ up.address;
              state = moved;
            },
            healthy.alive,
          ),
          (λ j ne.
              send_other server max cfg clock command idx j w1 ne
              ∙ callable_other server max cfg clock command idx j w ne),
        )

    module _ (conf : Client.Config) (h404 : Bool) where
      -- So the loop goes on by what it makes of that answer.
      pub loop_answers :
          (idx : ℕ) (rest : List ℕ) (prev conts : ℕ) (none_left : Bool) (w : World P max) (r : R)
          → (callable server max cfg clock idx w).1 ≡ true
          → (send server max cfg clock R command idx (callable server max cfg clock idx w).0).1
            ≡ returns r
          → conts < conf.max_continues
          → (idx == prev) ≡ false
          → run_loop all conf command h404 (idx ∷ rest) prev conts none_left w
            ≡ follow
                (
                  round idx w,
                  judge_response all conf h404 conts
                      (lifespan server max cfg clock idx (round idx w))
                      r
                      (i.code r),
                )
                (λ keeps w'.
                  run_loop all conf command h404 rest idx (suc conts) (none_left && not keeps) w')
      unfolding try_server judge
      loop_answers idx rest prev conts none_left w r alive sent some_tries fresh =
          run_loop_tries all conf command h404 idx rest prev conts none_left w some_tries fresh
          ∙ rw (alive, sent) refl

  -- Every server below `n` is up, in a state that the predicate allows it.
  abbrev pub AllUp : ℕ → (ℕ → P → Type 0) → World P max → Type 0
  AllUp n I w = (i : ℕ) → i < n → (s : P) × IsUp server max cfg clock i s w × I i s

  IsUp-frame :
      (j : ℕ) (s : P) (w w' : World P max)
      → get_elem? w'.nodes j ≡ get_elem? w.nodes j
      → IsUp server max cfg clock j s w
      → IsUp server max cfg clock j s w'
  IsUp-frame j s w w' e (at, alive) = (
    record {
      node = at.node;
      there = e ∙ at.there;
      idle = at.idle;
      dest = at.dest;
      address = at.address;
      state = at.state;
    },
    alive,
  )

  pub AllUp-after :
      (n idx : ℕ) (I J : ℕ → P → Type 0) (w w' : World P max) (s' : P)
      → AllUp n I w
      → IsUp server max cfg clock idx s' w'
      → J idx s'
      → ((j : ℕ) (s : P) → idx ≢ j → I j s → J j s)
      → ((j : ℕ) → idx ≢ j → get_elem? w'.nodes j ≡ get_elem? w.nodes j)
      → AllUp n J w'
  AllUp-after n idx I J w w' s' up here moved others frame j small = elim (Bool-cases (idx == j)) [
    | inl same ↦
        let e : idx ≡ j = ground arith in
        (s', subst (λ k. IsUp server max cfg clock k s' w') e here, subst (λ k. J k s') e moved)
    | inr differ ↦
        let ne : idx ≢ j = λ e. ground arith in
        let (s, was, inv) = up j small in
        (s, IsUp-frame j s w w' (frame j ne) was, others j s ne inv)
  ]
