-- ===== src/Tests/Client.antt =====
-- include/mcache/client.h: the theorems over three servers, the first of them dead.
use mcache_client.Prelude.{
  ℕ, suc, ◌-◌, ◌^◌, ◌≡◌, ◌≢◌, ◌↔◌, refl, true, false, List, [], ◌∷◌, Bytes, arith, ltb, take,
}
use mcache_client.Error.{ResponseCode, out_of_servers, Result, returns, throws}
use mcache_client.Proto.Command.{Action, Command, after}
use mcache_client.Proto.Options.{Options}
use mcache_client.Proto.Response.{
  IsResponse, SingleResponse, SingleRetrievalResponse, single_response, single_retrieval_response,
  single, retrieval_message, set_flagged_body_default,
}
use mcache_client.Client.{Servers, default_config, run, run_loop, try_server, judge, judge_response}
use mcache_client.Client.Loop.{ask, distinct_neighbours, run-ask}
use mcache_client.Client.Verdicts.{AllDown, run-ne-io_error, run-out_of_servers}
use mcache_client.Client.Operations.{set, cas, gets, operate, set_outcome, cas_outcome, get_outcome}
use mcache_client.Client.Operations.Done.{StoredCode, Confirmed, set-Confirmed, cas-Confirmed}
use mcache_client.Client.Operations.Update.{Update, atomic_update, rounds, round, try_cas, try_add}
use mcache_client.Client.Operations.Update.Stored.{IsStored, atomic_update-IsStored}
use mcache_client.Client.Operations.FlushAll.{flush_result, flush_result-AllOk, AllOk}

-- A server answers what the command's `deserialize_header` makes of nothing; the world counts the
-- exchanges.
abbrev answer_at_once : (R : Type 0) ⦃i : IsResponse R⦄ → Command R → ℕ → ℕ → ℕ × Result R
answer_at_once R command idx w = (suc w, command.deserialize_header [])

abbrev three : Servers
three = record {
  World = ℕ;
  callable = λ idx w. (w, ltb 0 idx);
  lifespan = λ idx w. 1000;
  send = answer_at_once;
}

abbrev answered_with : {R : Type 0} → R → Command R
answered_with r = record {
  key = 97 ∷ [];
  serialize = returns [];
  header_delimiter = after 24;
  deserialize_header = λ header. returns r;
}

abbrev storing : Command SingleResponse
storing = answered_with (single ResponseCode.stored [])

abbrev missing : Command SingleRetrievalResponse
missing = answered_with (retrieval_message ResponseCode.not_found [])

abbrev everywhere : Bytes → List ℕ
everywhere key = 0 ∷ 1 ∷ 1 ∷ 2 ∷ []

run-ask_example :
    run three default_config storing false (0 ∷ 1 ∷ 1 ∷ 2 ∷ []) 0
    ≡ ask three default_config storing false
        (take 3 (distinct_neighbours (2 ^ 32 - 1) (0 ∷ 1 ∷ 1 ∷ 2 ∷ [])))
        0
        true
        0
run-ask_example = run-ask three default_config storing false (0 ∷ 1 ∷ 1 ∷ 2 ∷ []) 0

run-out_of_servers_example :
    ((run three default_config storing false (0 ∷ 0 ∷ []) 0).1 ≡ throws out_of_servers)
    ↔ AllDown three default_config storing false
        (take 3 (distinct_neighbours (2 ^ 32 - 1) (0 ∷ 0 ∷ [])))
        0
        0
run-out_of_servers_example =
    run-out_of_servers three default_config storing false (λ idx w e. cc) (0 ∷ 0 ∷ []) 0

ran :
    (run three default_config storing false (0 ∷ 1 ∷ []) 0).1
    ≡ returns (single ResponseCode.stored [])
unfolding run run_loop try_server judge judge_response
ran = refl

run-ne-io_error_example : ResponseCode.stored ≢ ResponseCode.io_error
run-ne-io_error_example =
    run-ne-io_error three default_config storing false (0 ∷ 1 ∷ []) 0
      (single ResponseCode.stored []) ran

set-Confirmed_example :
    Confirmed three default_config everywhere storing 0
      ((set three default_config everywhere (returns storing) 0).0)
      StoredCode
set-Confirmed_example = set-Confirmed three default_config everywhere storing 0 done
  where
    done : (set three default_config everywhere (returns storing) 0).1 ≡ returns tt
    done = unfold set operate set_outcome run run_loop try_server judge judge_response in refl

abbrev with_cas : Options
with_cas = record { expiration = 0; flags = 0; cas = 17 }

cas-Confirmed_example :
    (with_cas.cas ≢ 0)
    × Confirmed three default_config everywhere storing 0
        ((cas three default_config everywhere (λ opts. returns storing) with_cas 0).0)
        StoredCode
cas-Confirmed_example =
    cas-Confirmed three default_config everywhere (λ opts. storing) with_cas 0 done
  where
    done :
        (cas three default_config everywhere (λ opts. returns storing) with_cas 0).1 ≡ returns true
    done = unfold cas operate cas_outcome run run_loop try_server judge judge_response in refl

-- What is read is counted into the new value.
abbrev longer : Bytes → ℕ → Action ℕ Update
longer old flags world = (world, returns (65 ∷ old, suc flags))

abbrev two_rounds : Options
two_rounds = record { expiration = 5; flags = 0; cas = 2 }

abbrev present : Command SingleRetrievalResponse
present = answered_with (record {
  status = ResponseCode.ok;
  aux = 66 ∷ [];
  flags = 3;
  cas = 17;
  bytes = 0;
  set_body_callback = set_flagged_body_default;
})

abbrev update : Action ℕ Update
update =
    atomic_update three default_config everywhere present (λ new opts. storing)
      (λ new opts. storing) longer two_rounds

atomic_update-IsStored_example :
    IsStored three default_config everywhere present
      (λ new opts. storing)
      (λ new opts. storing)
      longer
      two_rounds
      2
      0
      (65 ∷ 66 ∷ [], 4)
      ((update 0).0)
atomic_update-IsStored_example =
    atomic_update-IsStored three default_config everywhere present (λ new opts. storing)
      (λ new opts. storing) longer two_rounds 0 (65 ∷ 66 ∷ [], 4) done
  where
    done : (update 0).1 ≡ returns (65 ∷ 66 ∷ [], 4)
    done =
        unfold atomic_update rounds round try_cas try_add gets cas operate get_outcome cas_outcome
          run run_loop try_server judge judge_response in
        refl

abbrev responses : List SingleResponse
responses = single ResponseCode.ok [] ∷ single ResponseCode.error (65 ∷ []) ∷ []

flush_result-AllOk_example :
    ((flush_result responses).found ≡ true ↔ AllOk responses)
    × ((flush_result responses).text ≡ [] ↔ AllOk responses)
flush_result-AllOk_example = flush_result-AllOk responses (ground arith)
