-- ===== src/Client.antt =====
-- include/mcache/client.h: the client, generic in the pool, the server proxies and the protocol. What
-- it uses of the proxies is `Servers`; the pool gives it the list of server indices that a loop over
-- the pool's iterator sees.
pub mod Loop
pub mod Operations
pub mod Verdicts
use mcache_client.Prelude.{
  ℕ, suc, ◌-◌, ◌^◌, Bool, true, false, not, List, [], ◌∷◌, ◌&&◌, ltb, ◌==◌, if◌then◌else◌, Bytes,
}
use mcache_client.Error.{ResponseCode, Exception, out_of_servers, Result, returns, throws}
use mcache_client.Proto.Command.{Command}
use mcache_client.Proto.Response.{IsResponse}

-- `client_config_t`, with the duration in seconds.
pub record Config : Type 0 where
  pub max_continues : ℕ
  pub h404_duration : ℕ

abbrev pub default_config : Config
default_config = record { max_continues = 3; h404_duration = 300 }

-- The server proxies by index. `World` holds all that the calls change: the proxies, their
-- connections, the clock.
pub record Servers : Type 1 where
  pub World : Type 0
  pub callable : ℕ → World → World × Bool
  pub lifespan : ℕ → World → ℕ
  pub send : (R : Type 0) ⦃i : IsResponse R⦄ → Command R → ℕ → World → World × Result R

-- What one round of the loop in `run` comes to: the call returns or throws, or the loop goes on, and
-- then whether it keeps a `not_found` in hand.
pub data Verdict (R : Type 0) : Type 0 where
  answered : Result R → Verdict R
  goes_on : Bool → Verdict R

-- The end of a round: the result, or what comes next.
abbrev pub follow : {W R : Type 0} → W × Verdict R → (Bool → W → W × Result R) → W × Result R
follow (w, answered result) next = (w, result)
follow (w, goes_on keeps) next = next keeps w

module _ (servers : Servers) (cfg : Config) {R : Type 0} ⦃i : IsResponse R⦄ where
  open servers use {World}

  -- The `switch` on the response of a server whose lifespan is at hand.
  unfoldable pub judge_response : Bool → ℕ → ℕ → R → ResponseCode → Verdict R
  judge_response h404 conts lifespan response ResponseCode.io_error = goes_on false
  judge_response h404 conts lifespan response ResponseCode.not_found =
      if h404 && conts == 0 && ltb lifespan cfg.h404_duration
      then goes_on true
      else answered (returns response)
  judge_response h404 conts lifespan response _ = answered (returns response)

  unfoldable pub judge : Bool → ℕ → ℕ → Result R → Verdict R
  unfolding judge_response
  judge h404 conts lifespan (throws e) = answered (throws e)
  judge h404 conts lifespan (returns response) =
      judge_response h404 conts lifespan response (i.code response)

  -- The body of the loop for a server that is not the previous one.
  unfoldable pub try_server : Command R → Bool → ℕ → ℕ → World → World × Verdict R
  unfolding judge
  try_server command h404 conts idx w =
      let (w1, alive) = servers.callable idx w in
      let (w2, result) = servers.send R command idx w1 in
      if alive then (w2, judge h404 conts (servers.lifespan idx w2) result) else (w1, goes_on false)

  -- Behind the loop.
  unfoldable pub finish : Bool → Result R
  finish out_of_servers' =
      if out_of_servers'
      then throws out_of_servers
      else returns (i.of_status ResponseCode.not_found [])

  -- The loop, over the indices that the iterator still has.
  unfoldable pub run_loop : Command R → Bool → List ℕ → ℕ → ℕ → Bool → World → World × Result R
  unfolding finish
  run_loop command h404 [] prev conts none_left w = (w, finish none_left)
  run_loop command h404 (idx ∷ rest) prev conts none_left w = elim (ltb conts cfg.max_continues) [
    | false ↦ (w, finish none_left)
    | true ↦ elim (idx == prev) [
      | true ↦ run_loop command h404 rest prev conts none_left w
      | false ↦
          follow (try_server command h404 conts idx w)
            (λ keeps w'. run_loop command h404 rest idx (suc conts) (none_left && not keeps) w')
    ]
  ]

  -- `run`: no server has the index that `prev` begins with.
  unfoldable pub run : Command R → Bool → List ℕ → World → World × Result R
  unfolding run_loop
  run command h404 walk w = run_loop command h404 walk (2 ^ 32 - 1) 0 true w
