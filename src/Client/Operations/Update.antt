-- ===== src/Client/Operations/Update.antt =====
-- include/mcache/client.h: `atomic_update`.
pub mod Attempts
pub mod Stored
use mcache_client.Prelude.{
  ℕ, zero, suc, ◌≡◌, refl, ◌∙◌, ap, Bool, true, false, List, [], ◌⊎◌, inl, inr, Bytes, codes,
  Option, none, some, ◌==◌, if◌then◌else◌, subst, Bool-cases,
}
use mcache_client.Error.{
  ErrorCode, ResponseCode, mc_error, proto_error, Result, returns, throws, returns_injective,
}
use mcache_client.Proto.Command.{Command, Action, ◌>>=◌, lift, >>=-returns}
use mcache_client.Proto.Options.{Options, iters}
use mcache_client.Proto.Response.{IsResponse, SingleRetrievalResponse, single_retrieval_response}
use mcache_client.Client.{Config, Servers}
use mcache_client.Client.Operations.{Found, gets, cas, add}
use mcache_client.Client.Operations.Done.{StoredCode, Confirmed, add-Confirmed, cas-Confirmed}

-- The new value with its flags. The callback may change what else the caller has in the world.
abbrev pub Update : Type 0
Update = Bytes × ℕ

-- The options of the two commands: the `cas` of what was read, or none.
abbrev pub update_opts : Options → Update → ℕ → Options
update_opts opts new cas = record { expiration = opts.expiration; flags = new.1; cas = cas }

abbrev pub stored_if : Update → Bool → Option Update
stored_if new done = if done then some new else none

-- The `catch`: another writer was faster, and the round has stored nothing.
abbrev pub ignore_exists : {W : Type 0} → W × Result (Option Update) → W × Result (Option Update)
ignore_exists (w, throws (proto_error ResponseCode.exists text)) = (w, returns none)
ignore_exists (w, r) = (w, r)

module _ (servers : Servers) (cfg : Config) (walk : Bytes → List ℕ) {R : Type 0} ⦃i : IsResponse R⦄
    (gets_command : Command SingleRetrievalResponse)
    (cas_command add_command : Bytes → Options → Command R)
    (callback : Bytes → ℕ → Action servers.World Update) (opts : Options) where
  open servers use {World}

  unfoldable pub try_cas : Found → Action World (Option Update)
  unfolding cas
  try_cas found = do
    new ← callback found.text found.flags
    λ w. ignore_exists (
        (cas servers cfg walk (λ o. returns (cas_command new.0 o)) (update_opts opts new found.cas)
            >>= λ done. lift (returns (stored_if new done)))
          w)

  unfoldable pub try_add : Action World (Option Update)
  unfolding add
  try_add = do
    new ← callback [] 0
    done ← add servers cfg walk (returns (add_command new.0 (update_opts opts new 0)))
    lift (returns (stored_if new done))

  -- One round of the loop: the update that was stored, if one was.
  unfoldable pub round : Action World (Option Update)
  unfolding gets try_cas try_add
  round = do
    found ← gets servers cfg walk gets_command
    if found.found then try_cas found else try_add

  abbrev pub again : Option Update → Action World Update → Action World Update
  again (some new) next = lift (returns new)
  again none next = next

  unfoldable pub rounds : ℕ → Action World Update
  unfolding round
  rounds zero = lift (throws (mc_error ErrorCode.unable_cas (codes "max iterations reached")))
  rounds (suc left) = do done ← round; again done (rounds left)

  unfoldable pub atomic_update : Action World Update
  unfolding rounds
  atomic_update = rounds (if iters opts == 0 then 64 else iters opts)
