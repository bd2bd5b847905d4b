-- ===== src/Client/Loop.antt =====
-- The loop of `run` against a plain specification: which servers are asked, in which order.
use mathlib.Core.Path.{fun_ext}
use mcache_client.Prelude.{
  ℕ, zero, suc, ◌+◌, ◌-◌, ◌^◌, ◌≤◌, ◌<◌, ◌≡◌, refl, ◌∙◌, ap, inl, inr, Bool, true, false, not, List,
  [], ◌∷◌, ◌&&◌, arith, ◌==◌, if◌then◌else◌, Bool-cases, lt→ltb, le→not_ltb, take,
}
use mcache_client.Error.{Result}
use mcache_client.Proto.Command.{Command}
use mcache_client.Proto.Response.{IsResponse}
use mcache_client.Client.{
  Config, Servers, answered, goes_on, follow, try_server, finish, run_loop, run,
}

-- A walk without the indices that repeat the one in front of them.
unfoldable pub distinct_neighbours : ℕ → List ℕ → List ℕ
distinct_neighbours prev [] = []
distinct_neighbours prev (i ∷ rest) =
    let tail = distinct_neighbours i rest in
    if i == prev then distinct_neighbours prev rest else i ∷ tail

module _ (servers : Servers) (cfg : Config) {R : Type 0} ⦃i : IsResponse R⦄ (command : Command R)
    (h404 : Bool) where
  open servers use {World}

  -- Ask one server after the other until one has the answer.
  unfoldable pub ask : List ℕ → ℕ → Bool → World → World × Result R
  ask [] conts none_left w = (w, finish servers cfg none_left)
  ask (idx ∷ rest) conts none_left w =
      follow (try_server servers cfg command h404 conts idx w)
        (λ keeps w'. ask rest (suc conts) (none_left && not keeps) w')

  module _ (idx : ℕ) (rest : List ℕ) (conts : ℕ) (none_left : Bool) (w : World) where
    pub ask-goes_on :
        (keeps : Bool)
        → (try_server servers cfg command h404 conts idx w).1 ≡ goes_on keeps
        → ask (idx ∷ rest) conts none_left w
          ≡ ask rest
              (suc conts)
              (none_left && not keeps)
              (try_server servers cfg command h404 conts idx w).0
    unfolding ask
    ask-goes_on keeps e = rw e

    pub ask-answered :
        (r : Result R)
        → (try_server servers cfg command h404 conts idx w).1 ≡ answered r
        → (ask (idx ∷ rest) conts none_left w).1 ≡ r
    unfolding ask
    ask-answered r e = rw e

    pub ask-settled :
        (r : Result R)
        → (try_server servers cfg command h404 conts idx w).1 ≡ answered r
        → ask (idx ∷ rest) conts none_left w
          ≡ ((try_server servers cfg command h404 conts idx w).0, r)
    unfolding ask
    ask-settled r e = rw e refl

  module _ (idx : ℕ) (rest : List ℕ) (prev conts : ℕ) (none_left : Bool) (w : World) where
    pub run_loop_stops :
        cfg.max_continues ≤ conts
        → run_loop servers cfg command h404 (idx ∷ rest) prev conts none_left w
          ≡ (w, finish servers cfg none_left)
    unfolding run_loop
    run_loop_stops h = rw (le→not_ltb conts cfg.max_continues h, run_loop)

    pub run_loop_skips :
        conts < cfg.max_continues
        → (idx == prev) ≡ true
        → run_loop servers cfg command h404 (idx ∷ rest) prev conts none_left w
          ≡ run_loop servers cfg command h404 rest prev conts none_left w
    unfolding run_loop
    run_loop_skips h e = rw (lt→ltb conts cfg.max_continues h, run_loop) (rw (e, run_loop))

    pub run_loop_tries :
        conts < cfg.max_continues
        → (idx == prev) ≡ false
        → run_loop servers cfg command h404 (idx ∷ rest) prev conts none_left w
          ≡ follow (try_server servers cfg command h404 conts idx w) (λ keeps w'.
            run_loop servers cfg command h404 rest idx (suc conts) (none_left && not keeps) w')
    unfolding run_loop
    run_loop_tries h e = rw (lt→ltb conts cfg.max_continues h, run_loop) (rw (e, run_loop))

  run_loop-ask :
      (walk : List ℕ) (prev conts left : ℕ) (none_left : Bool) (w : World)
      → conts + left ≡ cfg.max_continues
      → run_loop servers cfg command h404 walk prev conts none_left w
        ≡ ask (take left (distinct_neighbours prev walk)) conts none_left w
  unfolding ask distinct_neighbours
  run_loop-ask [] prev conts zero none_left w e = unfold run_loop in refl
  run_loop-ask [] prev conts (suc left) none_left w e = unfold run_loop in refl
  run_loop-ask (idx ∷ rest) prev conts zero none_left w e =
      run_loop_stops idx rest prev conts none_left w (omega arith)
  run_loop-ask (idx ∷ rest) prev conts (suc left) none_left w e = elim (Bool-cases (idx == prev)) [
    | inl same ↦
        run_loop_skips idx rest prev conts none_left w (omega arith) same
        ∙ run_loop-ask rest prev conts (suc left) none_left w e
        ∙ rw same
    | inr other ↦
        run_loop_tries idx rest prev conts none_left w (omega arith) other
        ∙ ap (follow (try_server servers cfg command h404 conts idx w)) (
            fun_ext λ keeps. fun_ext λ w'.
              run_loop-ask rest idx (suc conts) left (none_left && not keeps) w' (omega arith))
        ∙ rw other
  ]

  -- `run` asks the servers of the walk in order, each only once in a row and never more than
  -- `max_continues` of them, until one of them has the answer.
  pub run-ask :
      (walk : List ℕ) (w : World)
      → run servers cfg command h404 walk w
        ≡ ask (take cfg.max_continues (distinct_neighbours (2 ^ 32 - 1) walk)) 0 true w
  unfolding run
  run-ask walk w = run_loop-ask walk (2 ^ 32 - 1) 0 cfg.max_continues true w (omega arith)
