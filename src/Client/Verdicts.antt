-- ===== src/Client/Verdicts.antt =====
-- What `run` returns and throws, over the servers that it asks.
use mcache_client.Prelude.{
  ℕ, suc, ◌-◌, ◌^◌, ◌≡◌, ◌≢◌, refl, sym, ap, ◌∙◌, ◌↔◌, Bool, true, false, not, List, [], ◌∷◌, ◌&&◌,
  ◌⊎◌, inl, inr, arith, ltb, Bool-cases, ◌==◌, take,
}
use mcache_client.Error.{ResponseCode, out_of_servers, Result, Result-cases, returns, throws}
use mcache_client.Proto.Command.{Command}
use mcache_client.Proto.Response.{IsResponse}
use mcache_client.Client.{
  Config, Servers, Verdict, answered, goes_on, follow, judge, judge_response, try_server, finish,
  run,
}
use mcache_client.Client.Loop.{ask, run-ask, ask-goes_on, ask-answered, distinct_neighbours}

and_true : (b : Bool) → (b && true) ≡ true → b ≡ true
and_true b e = ground arith

and_false : (b : Bool) → ¬ ((b && false) ≡ true)
and_false b e = ground arith

module _ (servers : Servers) (cfg : Config) {R : Type 0} ⦃i : IsResponse R⦄ (command : Command R)
    (h404 : Bool) where
  open servers use {World}

  -- A result that is no answer with `io_error`.
  abbrev Settled : Result R → Type 0
  Settled (returns r) = i.code r ≢ ResponseCode.io_error
  Settled (throws e) = Unit {0}

  abbrev SettledVerdict : Verdict R → Type 0
  SettledVerdict (answered r) = Settled r
  SettledVerdict (goes_on keeps) = Unit {0}

  judge_response-Settled :
      (conts lifespan : ℕ) (r : R) (c : ResponseCode)
      → i.code r ≡ c
      → SettledVerdict (judge_response servers cfg h404 conts lifespan r c)
  unfolding judge_response
  judge_response-Settled conts lifespan r ResponseCode.io_error e = tt
  judge_response-Settled conts lifespan r ResponseCode.not_found e =
      elim (Bool-cases (h404 && conts == 0 && ltb lifespan cfg.h404_duration)) [
        | inl neighbour ↦ rw neighbour tt
        | inr final ↦ rw final (λ x. cc)
      ]
  judge_response-Settled conts lifespan r _ e = λ x. cc

  judge-Settled :
      (conts lifespan : ℕ) (r : Result R) → SettledVerdict (judge servers cfg h404 conts lifespan r)
  unfolding judge
  judge-Settled conts lifespan (returns r) = judge_response-Settled conts lifespan r (i.code r) refl
  judge-Settled conts lifespan (throws e) = tt

  try_server-Settled :
      (conts idx : ℕ) (w : World)
      → SettledVerdict (try_server servers cfg command h404 conts idx w).1
  unfolding try_server
  try_server-Settled conts idx w = elim (Bool-cases (servers.callable idx w).1) [
    | inl alive ↦ rw alive (judge-Settled conts _ _)
    | inr dead ↦ rw dead tt
  ]

  finish-Settled : (b : Bool) → Settled (finish servers cfg b)
  unfolding finish
  finish-Settled true = tt
  finish-Settled false = λ x. cc (i.code-of_status ResponseCode.not_found [])

  follow-Settled :
      (round : World × Verdict R) (next : Bool → World → World × Result R)
      → SettledVerdict round.1
      → ((keeps : Bool) (w : World) → Settled (next keeps w).1)
      → Settled (follow round next).1
  follow-Settled (w, answered r) next v h = v
  follow-Settled (w, goes_on keeps) next v h = h keeps w

  ask-Settled :
      (walk : List ℕ) (conts : ℕ) (none_left : Bool) (w : World)
      → Settled (ask servers cfg command h404 walk conts none_left w).1
  unfolding ask
  ask-Settled [] conts none_left w = finish-Settled none_left
  ask-Settled (idx ∷ rest) conts none_left w =
      follow-Settled _ _ (try_server-Settled conts idx w)
        (λ keeps w'. ask-Settled rest (suc conts) (none_left && not keeps) w')

  -- `run` never returns a response with the code `io_error`: a broken connection shows to the caller
  -- as another server's answer, as `not_found`, or as an exception.
  pub run-ne-io_error :
      (walk : List ℕ) (w : World) (r : R)
      → (run servers cfg command h404 walk w).1 ≡ returns r
      → i.code r ≢ ResponseCode.io_error
  run-ne-io_error walk w r e = rw e at (
      rw (← run-ask servers cfg command h404 walk w) at
        (ask-Settled (take cfg.max_continues (distinct_neighbours (2 ^ 32 - 1) walk)) 0 true w))

  -- A server that gives no answer: it may not be called, or the connection to it breaks.
  abbrev pub IsDown : ℕ → World → Type 0
  IsDown idx w =
      ((servers.callable idx w).1 ≡ false)
      ⊎ (((servers.callable idx w).1 ≡ true)
          × ((r : R) × ((servers.send R command idx (servers.callable idx w).0).1 ≡ returns r)
              × (i.code r ≡ ResponseCode.io_error)))

  -- So it is for every server of a list, asked one after the other.
  abbrev pub AllDown : List ℕ → ℕ → World → Type 0
  AllDown [] conts w = Unit {0}
  AllDown (idx ∷ rest) conts w =
      IsDown idx w × AllDown rest (suc conts) (try_server servers cfg command h404 conts idx w).0

  try_server-IsDown :
      (conts idx : ℕ) (w : World)
      → IsDown idx w
      → (try_server servers cfg command h404 conts idx w).1 ≡ goes_on false
  unfolding try_server judge judge_response
  try_server-IsDown conts idx w (inl dead) = rw dead
  try_server-IsDown conts idx w (inr (alive, (r, e, c))) = rw (alive, e, c)

  ask-AllDown :
      (walk : List ℕ) (conts : ℕ) (w : World)
      → AllDown walk conts w
      → (ask servers cfg command h404 walk conts true w).1 ≡ throws out_of_servers
  unfolding ask finish
  ask-AllDown [] conts w d = refl
  ask-AllDown (idx ∷ rest) conts w d =
      ap (λ o. o.1)
        (ask-goes_on servers cfg command h404 idx rest conts true w false
          (try_server-IsDown conts idx w d.0))
      ∙ ask-AllDown rest (suc conts) _ d.1

  -- Only `run` itself says that it is out of servers.
  abbrev pub Quiet : Type 0
  Quiet = (idx : ℕ) (w : World) → (servers.send R command idx w).1 ≢ throws out_of_servers

  -- What a round of the loop may come to.
  data Round (conts idx : ℕ) (w : World) : Type 0 where
    down :
        IsDown idx w
        → (try_server servers cfg command h404 conts idx w).1 ≡ goes_on false
        → Round conts idx w
    missed : (try_server servers cfg command h404 conts idx w).1 ≡ goes_on true → Round conts idx w
    done :
        (r : Result R)
        → r ≢ throws out_of_servers
        → (try_server servers cfg command h404 conts idx w).1 ≡ answered r
        → Round conts idx w

  judged :
      (conts idx : ℕ) (w : World) (r : R) (c : ResponseCode)
      → (servers.callable idx w).1 ≡ true
      → (servers.send R command idx (servers.callable idx w).0).1 ≡ returns r
      → i.code r ≡ c
      → Round conts idx w
  unfolding try_server judge judge_response
  judged conts idx w r ResponseCode.io_error alive e k =
      down (inr (alive, (r, e, k))) (rw (alive, e, k))
  judged conts idx w r ResponseCode.not_found alive e k =
      let w' = (servers.send R command idx (servers.callable idx w).0).0 in
      elim (Bool-cases (h404 && conts == 0 && ltb (servers.lifespan idx w') cfg.h404_duration)) [
        | inl neighbour ↦ missed (rw (alive, e, k, neighbour))
        | inr final ↦ done (returns r) (λ x. cc) (rw (alive, e, k, final))
      ]
  judged conts idx w r _ alive e k = done (returns r) (λ x. cc) (rw (alive, e, k))

  round : Quiet → (conts idx : ℕ) (w : World) → Round conts idx w
  unfolding try_server judge
  round q conts idx w = elim (Bool-cases (servers.callable idx w).1) [
    | inr dead ↦ down (inl dead) (rw dead)
    | inl alive ↦ elim (Result-cases (servers.send R command idx (servers.callable idx w).0).1) [
      | inl (r, e) ↦ judged conts idx w r (i.code r) alive e refl
      | inr (x, e) ↦ done (throws x) (λ f. q idx _ (e ∙ f)) (rw (alive, e))
    ]
  ]

  AllDown-ask :
      Quiet
      → (walk : List ℕ) (conts : ℕ) (none_left : Bool) (w : World)
      → (ask servers cfg command h404 walk conts none_left w).1 ≡ throws out_of_servers
      → (none_left ≡ true) × AllDown walk conts w
  unfolding ask finish
  AllDown-ask q [] conts true w e = (refl, tt)
  AllDown-ask q [] conts false w e = cc
  AllDown-ask q (idx ∷ rest) conts none_left w e = elim (round q conts idx w) [
    | down d g ↦
        let rest-down = AllDown-ask q rest (suc conts) _ _ (
          ap (λ o. o.1)
            (sym (ask-goes_on servers cfg command h404 idx rest conts none_left w false g))
          ∙ e) in
        (and_true none_left rest-down.0, (d, rest-down.1))
    | missed g ↦
        let rest-down = AllDown-ask q rest (suc conts) _ _ (
          ap (λ o. o.1)
            (sym (ask-goes_on servers cfg command h404 idx rest conts none_left w true g))
          ∙ e) in
        absurd (and_false none_left rest-down.0)
    | done r ne g ↦
        absurd (ne (sym (ask-answered servers cfg command h404 idx rest conts none_left w r g) ∙ e))
  ]

  -- `run` throws `out_of_servers_t` exactly when every server that it asks is down, each as it finds
  -- it at its turn (provided that no call on a server throws that exception by itself).
  pub run-out_of_servers :
      Quiet
      → (walk : List ℕ) (w : World)
      → ((run servers cfg command h404 walk w).1 ≡ throws out_of_servers)
        ↔ AllDown (take cfg.max_continues (distinct_neighbours (2 ^ 32 - 1) walk)) 0 w
  run-out_of_servers q walk w =
      rw (run-ask servers cfg command h404 walk w)
        ((λ e. (AllDown-ask q _ 0 true w e).1), ask-AllDown _ 0 w)
