-- ===== src/Cluster/Cache/Loop/Misses.antt =====
-- include/mcache/client.h: the client's loop where no server has what is asked for.
use mcache_client.Prelude.{
  ℕ, suc, ◌-◌, ◌^◌, ◌<◌, All, ◌≡◌, refl, sym, ◌∙◌, ap, Bool, true, false, not, ◌&&◌, List, [], ◌∷◌,
  ◌==◌, inl, inr, Bool-cases, ltb, Bytes, ltb→lt, not_ltb→le, subst, ◌⊎◌,
}
use mcache_client.Error.{ResponseCode, Result, returns}
use mcache_client.Client as Client
use mcache_client.Client.{
  Servers, Verdict, answered, goes_on, follow, judge, judge_response, finish, try_server, run_loop,
  run,
}
use mcache_client.Client.Operations.{operate}
use mcache_client.Cluster.Operate.{operate_returned}
use mcache_client.Client.Loop.{run_loop_stops, run_loop_skips}
use mcache_client.Io.Tcp.{Peer}
use mcache_client.Proto.Command.{Command}
use mcache_client.Proto.Response.{IsResponse}
use mcache_client.Server.Proxy as Proxy
use mcache_client.Cluster.{World, lifespan}
use mcache_client.Cluster.Exchange.{Answers}
use mcache_client.Cluster.Healthy.{Listens}
use mcache_client.Cluster.Cache.Loop.{all, round, round_answers, loop_answers, AllUp, AllUp-after}

module _ {P : Type 0} (server : Peer P) (max : ℕ) (cfg : Proxy.Config) (clock : ℕ → ℕ) where
  module _ {R : Type 0} ⦃i : IsResponse R⦄ (command : Command R) (conf : Client.Config)
      (h404 : Bool) (n : ℕ) (I : ℕ → P → Type 0)
      (listens : (s : P) → Listens server max cfg clock s)
      (asked : (j : ℕ) (s : P)
        → I j s
        → (s' : P) × (r : R) × Answers server command s s' r
          × (i.code r ≡ ResponseCode.not_found)
          × I j s') where
    -- The client has not found it, and every server is as it may be.
    abbrev pub Missed : World P max × Result R → Type 0
    Missed after =
        ((r : R) × (after.1 ≡ returns r) × (i.code r ≡ ResponseCode.not_found))
        × AllUp server max cfg clock n I after.0

    verdict_missed :
        (conts life : ℕ) (r : R)
        → (judge_response (all server max cfg clock) conf h404 conts life r ResponseCode.not_found
            ≡ goes_on true)
          ⊎ (judge_response (all server max cfg clock) conf h404 conts life r ResponseCode.not_found
              ≡ answered (returns r))
    unfolding judge_response
    verdict_missed conts life r =
        elim (Bool-cases (h404 && conts == 0 && ltb life conf.h404_duration)) [
          | inl on ↦ inl (rw on refl)
          | inr off ↦ inr (rw off refl)
        ]

    -- A round of it, for what the rest of the loop comes to.
    round_misses :
        (idx : ℕ) (rest : List ℕ) (prev conts : ℕ) (none_left : Bool) (w : World P max)
        → conts < conf.max_continues
        → (idx == prev) ≡ false
        → idx < n
        → AllUp server max cfg clock n I w
        → ((w' : World P max)
            → AllUp server max cfg clock n I w'
            → Missed (
                run_loop
                  (all server max cfg clock)
                  conf
                  command
                  h404
                  rest
                  idx
                  (suc conts)
                  (none_left && not true)
                  w'))
        → Missed (
            run_loop
              (all server max cfg clock)
              conf
              command
              h404
              (idx ∷ rest)
              prev
              conts
              none_left
              w)
    round_misses idx rest prev conts none_left w some_tries fresh small up later =
        let (s, was, inv) = up idx small in
        let (s', r, a, code, inv') = asked idx s inv in
        let (alive, sent, here, frame) =
          round_answers server max cfg clock command idx w s s' r (listens s) was a in
        let up' =
          AllUp-after server max cfg clock n idx I I w (round server max cfg clock command idx w) s'
            up here inv' (λ j t ne v. v) frame in
        let life = lifespan server max cfg clock idx (round server max cfg clock command idx w) in
        rw
          (
            loop_answers server max cfg clock command conf h404 idx rest prev conts none_left w r
                alive sent some_tries fresh,
            code,
          )
          (elim (verdict_missed conts life r) [
            | inl on ↦ rw on (later (round server max cfg clock command idx w) up')
            | inr off ↦ rw off ((r, refl, code), up')
          ])

    -- Where no server has an answer but `not_found`, that is the answer, once one was asked.
    loop_misses :
        (walk : List ℕ) (prev conts : ℕ) (w : World P max)
        → All (λ j. j < n) walk
        → AllUp server max cfg clock n I w
        → Missed (run_loop (all server max cfg clock) conf command h404 walk prev conts false w)
    unfolding run_loop finish
    loop_misses [] prev conts w few up = (
      (i.of_status ResponseCode.not_found [], refl, i.code-of_status ResponseCode.not_found []),
      up,
    )
    loop_misses (idx ∷ rest) prev conts w few up =
        elim (Bool-cases (ltb conts conf.max_continues)) [
          | inl room ↦
              let lt = ltb→lt conts conf.max_continues room in
              elim (Bool-cases (idx == prev)) [
                | inl same ↦
                    rw
                      (run_loop_skips (all server max cfg clock) conf command h404 idx rest prev
                        conts false w lt same)
                      (loop_misses rest prev conts w few.1 up)
                | inr fresh ↦
                    round_misses idx rest prev conts false w lt fresh few.0 up
                      (λ w' up'. loop_misses rest idx (suc conts) w' few.1 up')
              ]
          | inr full ↦
              rw
                (run_loop_stops (all server max cfg clock) conf command h404 idx rest prev conts
                  false w (not_ltb→le conts conf.max_continues full))
                (
                  (
                    i.of_status ResponseCode.not_found [],
                    refl,
                    i.code-of_status ResponseCode.not_found [],
                  ),
                  up,
                )
        ]

    run_misses :
        (idx : ℕ) (rest : List ℕ) (w : World P max)
        → 0 < conf.max_continues
        → (idx == 2 ^ 32 - 1) ≡ false
        → All (λ j. j < n) (idx ∷ rest)
        → AllUp server max cfg clock n I w
        → Missed (run (all server max cfg clock) conf command h404 (idx ∷ rest) w)
    unfolding run
    run_misses idx rest w some_tries fresh few up =
        round_misses idx rest (2 ^ 32 - 1) 0 true w some_tries fresh few.0 up
          (λ w' up'. loop_misses rest idx 1 w' few.1 up')

    -- So an operation makes of it what it makes of `not_found`.
    pub operate_misses :
        {A : Type 0} (walk : Bytes → List ℕ) (outcome : R → ResponseCode → Result A) (idx : ℕ)
        (rest : List ℕ) (w : World P max)
        → 0 < conf.max_continues
        → (idx == 2 ^ 32 - 1) ≡ false
        → walk command.key ≡ idx ∷ rest
        → All (λ j. j < n) (idx ∷ rest)
        → AllUp server max cfg clock n I w
        → let after =
            operate (all server max cfg clock) conf walk (returns command) h404 outcome w in
          ((r : R) × (after.1 ≡ outcome r ResponseCode.not_found))
          × AllUp server max cfg clock n I after.0
    operate_misses {A} walk outcome idx rest w some_tries fresh on_walk few up =
        let missed : Missed
            (run (all server max cfg clock) conf command h404 (walk command.key) w) =
          rw on_walk (run_misses idx rest w some_tries fresh few up) in
        let ((r, returned, code), up') = missed in
        let same =
          operate_returned (all server max cfg clock) conf walk command h404 outcome w r returned in
        (
          (r, ap (λ q. q.1) same ∙ ap (outcome r) code),
          subst (λ (q : World P max × Result A). AllUp server max cfg clock n I q.0) (sym same) up',
        )
