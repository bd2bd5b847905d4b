-- ===== src/Client/Operations/Confirmed.antt =====
-- include/mcache/client.h: what an operation reports as done was reported by a server.
use mcache_client.Prelude.{
  ℕ, suc, ◌-◌, ◌^◌, ◌≡◌, refl, sym, ◌∙◌, ap, Bool, true, false, not, List, [], ◌∷◌, ◌&&◌, ◌⊎◌, inl,
  inr, Bool-cases, take, arith,
}
use mcache_client.Error.{ResponseCode, Result, returns, throws}
use mcache_client.Proto.Command.{Command}
use mcache_client.Proto.Response.{IsResponse, single_retrieval_response}
use mcache_client.Client.{
  Config, Servers, Verdict, answered, goes_on, judge, judge_response, try_server, finish, run,
}
use mcache_client.Client.Loop.{ask, run-ask, ask-goes_on, ask-settled, distinct_neighbours}

module _ (servers : Servers) (cfg : Config) {R : Type 0} ⦃i : IsResponse R⦄
    (command : Command R) where
  open servers use {World}

  -- The loop over these servers, with this many behind it, comes in the world `w` to the server `j` in
  -- the world `u`: the servers in front of it were tried, one in the world that the other left, and
  -- none had the answer.
  pub data Reaches (h404 : Bool) : List ℕ → ℕ → World → ℕ → World → Type 0 where
    here : {idx conts : ℕ} {rest : List ℕ} {w : World} → Reaches h404 (idx ∷ rest) conts w idx w
    next :
        {idx conts j : ℕ} {rest : List ℕ} {w u : World} (keeps : Bool)
        → (try_server servers cfg command h404 conts idx w).1 ≡ goes_on keeps
        → Reaches h404 rest (suc conts) (try_server servers cfg command h404 conts idx w).0 j u
        → Reaches h404 (idx ∷ rest) conts w j u

  -- The loop came to a server that could be called, sent it the command, and ended in the world `w'`
  -- with this response of it.
  abbrev pub SentFrom : Bool → List ℕ → ℕ → World → R → World → Type 0
  SentFrom h404 walk conts w r w' =
      (idx : ℕ) × (u : World) × Reaches h404 walk conts w idx u
      × ((servers.callable idx u).1 ≡ true)
      × (servers.send R command idx (servers.callable idx u).0 ≡ (w', returns r))

  -- The same of `run`, which asks the servers of the walk without neighbours that repeat, and not more
  -- than `max_continues` of them.
  abbrev pub Sent : Bool → List ℕ → World → R → World → Type 0
  Sent h404 walk = SentFrom h404 (take cfg.max_continues (distinct_neighbours (2 ^ 32 - 1) walk)) 0

  judge_response-answered :
      (h404 : Bool) (conts lifespan : ℕ) (r r' : R) (c : ResponseCode)
      → judge_response servers cfg h404 conts lifespan r c ≡ answered (returns r')
      → r ≡ r'
  unfolding judge_response
  judge_response-answered h404 conts lifespan r r' ResponseCode.io_error e = absurd cc
  judge_response-answered h404 conts lifespan r r' ResponseCode.not_found e = ground arith
  judge_response-answered h404 conts lifespan r r' _ e = cc

  judge-answered :
      (h404 : Bool) (conts lifespan : ℕ) (result : Result R) (r : R)
      → judge servers cfg h404 conts lifespan result ≡ answered (returns r)
      → result ≡ returns r
  unfolding judge
  judge-answered h404 conts lifespan (throws x) r e = cc
  judge-answered h404 conts lifespan (returns r') r e =
      ap returns (judge_response-answered h404 conts lifespan r' r (i.code r') e)

  module _ (h404 : Bool) where
    try_server-answered :
        (conts idx : ℕ) (w : World) (r : R)
        → (try_server servers cfg command h404 conts idx w).1 ≡ answered (returns r)
        → ((servers.callable idx w).1 ≡ true)
          × (servers.send R command idx (servers.callable idx w).0
              ≡ ((try_server servers cfg command h404 conts idx w).0, returns r))
    unfolding try_server
    try_server-answered conts idx w r e = elim (Bool-cases (servers.callable idx w).1) [
      | inl alive ↦
          let w1 = (servers.callable idx w).0 in
          let got = judge-answered h404 conts _ _ r (rw alive at e) in
          (alive, rw alive (ap (λ (a : Result R). ((servers.send R command idx w1).0, a)) got))
      | inr dead ↦ absurd (cc (rw dead at e))
    ]

    Verdict-cases :
        (v : Verdict R)
        → ((keeps : Bool) × (v ≡ goes_on keeps)) ⊎ ((result : Result R) × (v ≡ answered result))
    Verdict-cases (answered result) = inr (result, refl)
    Verdict-cases (goes_on keeps) = inl (keeps, refl)

    finish-returns :
        (b : Bool) (r : R)
        → finish servers cfg b ≡ returns r
        → r ≡ i.of_status ResponseCode.not_found []
    unfolding finish
    finish-returns true r e = absurd cc
    finish-returns false r e = cc

    ask-Sent :
        (walk : List ℕ) (conts : ℕ) (none_left : Bool) (w : World) (r : R)
        → (ask servers cfg command h404 walk conts none_left w).1 ≡ returns r
        → SentFrom h404 walk conts w r (ask servers cfg command h404 walk conts none_left w).0
          ⊎ (r ≡ i.of_status ResponseCode.not_found [])
    ask-Sent [] conts none_left w r e = inr (finish-returns none_left r (unfold ask in e))
    ask-Sent (idx ∷ rest) conts none_left w r e =
        elim (Verdict-cases (try_server servers cfg command h404 conts idx w).1) [
          | inl (keeps, on) ↦
              let w1 = (try_server servers cfg command h404 conts idx w).0 in
              let same = ask-goes_on servers cfg command h404 idx rest conts none_left w keeps on in
              elim (ask-Sent rest (suc conts) (none_left && not keeps) w1 r
                (sym (ap (λ (q : World × Result R). q.1) same) ∙ e)) [
                  | inl (j, u, reached, alive, sent) ↦ inl (
                    j,
                    u,
                    Reaches.next keeps on reached,
                    alive,
                    sent ∙ ap (λ (q : World × Result R). (q.0, returns r)) (sym same),
                  )
                  | inr missed ↦ inr missed
                ]
          | inr (result, settled) ↦
              let same =
                ask-settled servers cfg command h404 idx rest conts none_left w result settled in
              let got : result ≡ returns r = sym (ap (λ (q : World × Result R). q.1) same) ∙ e in
              let (alive, sent) = try_server-answered conts idx w r (settled ∙ ap answered got) in
              inl (
                idx,
                w,
                Reaches.here,
                alive,
                sent ∙ ap (λ (q : World × Result R). (q.0, returns r)) (sym same),
              )
        ]

    -- What `run` returns was sent by the server at which it ended, or is the `not_found` of its last
    -- line.
    pub run-Sent :
        (walk : List ℕ) (w : World) (r : R)
        → (run servers cfg command h404 walk w).1 ≡ returns r
        → Sent h404 walk w r (run servers cfg command h404 walk w).0
          ⊎ (r ≡ i.of_status ResponseCode.not_found [])
    run-Sent walk w r e =
        let asked = take cfg.max_continues (distinct_neighbours (2 ^ 32 - 1) walk) in
        let same = run-ask servers cfg command h404 walk w in
        elim (ask-Sent asked 0 true w r (sym (ap (λ (q : World × Result R). q.1) same) ∙ e)) [
          | inl (j, u, reached, alive, sent) ↦ inl (
            j,
            u,
            reached,
            alive,
            sent ∙ ap (λ (q : World × Result R). (q.0, returns r)) (sym same),
          )
          | inr missed ↦ inr missed
        ]
