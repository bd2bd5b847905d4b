-- ===== src/Client/Operations.antt =====
-- include/mcache/client.h: the operations of `client_template_t`. The protocol is a parameter, as it is
-- a template parameter of the source; the pool appears as the walk that it gives for a key.
pub mod Confirmed
pub mod Done
pub mod Typed
pub mod FlushAll
pub mod Update
use mcache_client.Prelude.{
  ℕ, zero, suc, ◌+◌, ◌%◌, ◌^◌, Bool, true, false, List, [], ◌∷◌, ◌++◌, Option, none, some, ◌==◌,
  if◌then◌else◌, Bytes, codes,
}
use mcache_client.Error.{
  ErrorCode, ResponseCode, Exception, mc_error, proto_error, Result, returns, throws,
}
use mcache_client.Proto.Command.{Command, Action, ◌>>=◌, ◌>>◌, lift}
use mcache_client.Proto.Options.{Options, iters}
use mcache_client.Proto.Response.{
  IsResponse, SingleRetrievalResponse, single_retrieval_response, exception,
}
use mcache_client.Client.{Config, Servers, run}

-- `result_t`, with `data` as `text`.
pub record Found : Type 0 where
  pub found : Bool
  pub text : Bytes
  pub flags : ℕ
  pub cas : ℕ

abbrev pub message : Bool → Bytes → Found
message found text = record { found = found; text = text; flags = 0; cas = 0 }

abbrev pub miss : Found
miss = message false []

-- What each operation makes of the response: its `switch`.
module _ {R : Type 0} ⦃i : IsResponse R⦄ where
  unfoldable pub set_outcome : R → ResponseCode → Result (Unit {0})
  set_outcome r ResponseCode.ok = returns tt
  set_outcome r ResponseCode.stored = returns tt
  set_outcome r _ = throws (exception r)

  unfoldable pub add_outcome : R → ResponseCode → Result Bool
  add_outcome r ResponseCode.ok = returns true
  add_outcome r ResponseCode.stored = returns true
  add_outcome r ResponseCode.exists = returns false
  add_outcome r ResponseCode.not_stored = returns false
  add_outcome r _ = throws (exception r)

  -- The one of `replace`, `prepend` and `append`.
  unfoldable pub replace_outcome : R → ResponseCode → Result Bool
  replace_outcome r ResponseCode.ok = returns true
  replace_outcome r ResponseCode.stored = returns true
  replace_outcome r ResponseCode.not_stored = returns false
  replace_outcome r _ = throws (exception r)

  unfoldable pub cas_outcome : R → ResponseCode → Result Bool
  cas_outcome r ResponseCode.ok = returns true
  cas_outcome r ResponseCode.stored = returns true
  cas_outcome r ResponseCode.not_found = returns false
  cas_outcome r _ = throws (exception r)

  -- The one of `incr` and `decr`; the number is read by `atoll` of the C library.
  unfoldable pub counter_outcome : (Bytes → ℕ) → R → ResponseCode → Result (ℕ × Bool)
  counter_outcome atoll r ResponseCode.ok = returns (atoll (i.text r), true)
  counter_outcome atoll r ResponseCode.not_found = returns (0, false)
  counter_outcome atoll r _ = throws (exception r)

  unfoldable pub touch_outcome : R → ResponseCode → Result Bool
  touch_outcome r ResponseCode.touched = returns true
  touch_outcome r ResponseCode.not_found = returns false
  touch_outcome r _ = throws (exception r)

  unfoldable pub del_outcome : R → ResponseCode → Result Bool
  del_outcome r ResponseCode.ok = returns true
  del_outcome r ResponseCode.deleted = returns true
  del_outcome r ResponseCode.not_found = returns false
  del_outcome r _ = throws (exception r)

-- `get` leaves the `cas` out, `gets` does not.
unfoldable pub get_outcome : Bool → SingleRetrievalResponse → ResponseCode → Result Found
get_outcome with_cas r ResponseCode.ok =
    returns
      (record { found = true; text = r.aux; flags = r.flags; cas = if with_cas then r.cas else 0 })
get_outcome with_cas r ResponseCode.not_found = returns miss
get_outcome with_cas r _ = throws (exception r)

module _ (servers : Servers) (cfg : Config) (walk : Bytes → List ℕ) where
  open servers use {World}

  -- A command whose constructor may throw is run, and its response judged.
  unfoldable pub operate :
      {R A : Type 0} ⦃i : IsResponse R⦄
      → Result (Command R)
      → Bool
      → (R → ResponseCode → Result A)
      → Action World A
  operate ⦃i⦄ new h404 outcome = do
    command ← lift new
    response ← run servers cfg command h404 (walk command.key)
    lift (outcome response (i.code response))

  module _ {R : Type 0} ⦃i : IsResponse R⦄ where
    unfoldable pub set : Result (Command R) → Action World (Unit {0})
    unfolding operate set_outcome
    set new = operate new false set_outcome

    unfoldable pub add : Result (Command R) → Action World Bool
    unfolding operate add_outcome
    add new = operate new false add_outcome

    -- `replace`, `prepend` and `append`.
    unfoldable pub replace : Result (Command R) → Action World Bool
    unfolding operate replace_outcome
    replace new = operate new false replace_outcome

    -- `cas`, with the identifier in the options: zero is none.
    unfoldable pub cas : (Options → Result (Command R)) → Options → Action World Bool
    unfolding operate cas_outcome
    cas new opts =
        if opts.cas == 0
        then lift (throws (mc_error ErrorCode.bad_argument (codes "invalid cas")))
        else operate (new opts) false cas_outcome

    -- `incr` and `decr`.
    unfoldable pub incr : (Bytes → ℕ) → Result (Command R) → Action World (ℕ × Bool)
    unfolding operate counter_outcome
    incr atoll new = operate new false (counter_outcome atoll)

    unfoldable pub touch : Result (Command R) → Action World Bool
    unfolding operate touch_outcome
    touch new = operate new false touch_outcome

    unfoldable pub del : Result (Command R) → Action World Bool
    unfolding operate del_outcome
    del new = operate new false del_outcome

  unfoldable pub get : Command SingleRetrievalResponse → Action World Found
  unfolding operate get_outcome
  get command = operate (returns command) true (get_outcome false)

  unfoldable pub gets : Command SingleRetrievalResponse → Action World Found
  unfolding operate get_outcome
  gets command = operate (returns command) true (get_outcome true)
