-- ===== src/Client/Operations/Update/Stored.antt =====
-- include/mcache/client.h: what `atomic_update` has stored when it returns.
use mcache_client.Prelude.{
  ℕ, zero, suc, ◌≡◌, refl, sym, ◌∙◌, ap, true, false, List, ◌⊎◌, inl, inr, Bytes, Option, none,
  some, ◌==◌, if◌then◌else◌, subst, Bool-cases,
}
use mcache_client.Error.{returns, returns_injective}
use mcache_client.Proto.Command.{Command, Action, >>=-returns, >>=-of-returns}
use mcache_client.Proto.Options.{Options, iters}
use mcache_client.Proto.Response.{IsResponse, SingleRetrievalResponse, single_retrieval_response}
use mcache_client.Client.{Config, Servers}
use mcache_client.Client.Operations.{Found, gets}
use mcache_client.Client.Operations.Update.{Update, round, again, rounds, atomic_update}
use mcache_client.Client.Operations.Update.Attempts as Attempts
use mcache_client.Client.Operations.Update.Attempts.{whole}

module _ (servers : Servers) (cfg : Config) (walk : Bytes → List ℕ) {R : Type 0} ⦃i : IsResponse R⦄
    (gets_command : Command SingleRetrievalResponse)
    (cas_command add_command : Bytes → Options → Command R)
    (callback : Bytes → ℕ → Action servers.World Update) (opts : Options) where
  open servers use {World}

  abbrev ByCas : Found → World → Update → World → Type 0
  ByCas = Attempts.ByCas servers cfg walk gets_command cas_command add_command callback opts

  abbrev ByAdd : World → Update → World → Type 0
  ByAdd = Attempts.ByAdd servers cfg walk gets_command cas_command add_command callback opts

  -- One round, from `w` to `w'`: what `gets` read decides what was stored.
  abbrev pub Stores : World → Update → World → Type 0
  Stores w new w' =
      (found : Found) × (u : World) × (gets servers cfg walk gets_command w ≡ (u, returns found))
      × (((found.found ≡ true) × ByCas found u new w') ⊎ ((found.found ≡ false) × ByAdd u new w'))

  -- At most so many rounds, of which the last stored the value and the others nothing.
  pub data IsStored : ℕ → World → Update → World → Type 0 where
    now : {left : ℕ} {w w' : World} {new : Update} → Stores w new w' → IsStored (suc left) w new w'
    later :
        {left : ℕ} {w w' : World} {new : Update} (u : World)
        → round servers cfg walk gets_command cas_command add_command callback opts w
          ≡ (u, returns none)
        → IsStored left u new w'
        → IsStored (suc left) w new w'

  abbrev one_round : Action World (Option Update)
  one_round = round servers cfg walk gets_command cas_command add_command callback opts

  round-Stores :
      (w : World) (new : Update)
      → (one_round w).1 ≡ returns (some new)
      → Stores w new (one_round w).0
  unfolding round
  round-Stores w new e =
      let reads = gets servers cfg walk gets_command in
      let act : Found → Action World (Option Update) = λ found.
        if found.found
        then Attempts.cas_step servers cfg walk gets_command cas_command add_command callback opts
            found
        else Attempts.add_step servers cfg walk gets_command cas_command add_command callback
            opts in
      let (found, read, e1) = >>=-returns (reads w) act e in
      let u = (reads w).0 in
      let began = ap (λ q. q.0) (>>=-of-returns reads act w read) in
      subst (Stores w new) (sym began) (
        found,
        u,
        whole (reads w) read,
        elim (Bool-cases found.found) [
          | inl hit ↦ inl (
            hit,
            rw hit (
                Attempts.try_cas-ByCas servers cfg walk gets_command cas_command add_command
                  callback opts found u new (rw hit at e1)),
          )
          | inr missed ↦ inr (
            missed,
            rw missed (
                Attempts.try_add-ByAdd servers cfg walk gets_command cas_command add_command
                  callback opts u new (rw missed at e1)),
          )
        ],
      )

  abbrev next_rounds : ℕ → Action World Update
  next_rounds = rounds servers cfg walk gets_command cas_command add_command callback opts

  again-IsStored :
      (left : ℕ) (done : Option Update) (w u : World) (new : Update)
      → one_round w ≡ (u, returns done)
      → ((made : Update) → done ≡ some made → Stores w made u)
      → ((next_rounds left u).1 ≡ returns new → IsStored left u new (next_rounds left u).0)
      → (again servers cfg walk gets_command cas_command add_command callback opts done
          (next_rounds left)
          u).1
        ≡ returns new
      → IsStored
          (suc left)
          w
          new
          (again servers cfg walk gets_command cas_command add_command callback opts done
            (next_rounds left)
            u).0
  again-IsStored left (some made) w u new ran stores rest e =
      IsStored.now (subst (λ n. Stores w n u) (returns_injective e) (stores made refl))
  again-IsStored left none w u new ran stores rest e = IsStored.later u ran (rest e)

  rounds-IsStored :
      (left : ℕ) (w : World) (new : Update)
      → (next_rounds left w).1 ≡ returns new
      → IsStored left w new (next_rounds left w).0
  unfolding rounds
  rounds-IsStored zero w new e = absurd cc
  rounds-IsStored (suc left) w new e =
      let act : Option Update → Action World Update = λ done.
        again servers cfg walk gets_command cas_command add_command callback opts done
          (next_rounds left) in
      let (done, ran, e1) = >>=-returns (one_round w) act e in
      let began = ap (λ q. q.0) (>>=-of-returns one_round act w ran) in
      subst (IsStored (suc left) w new) (sym began) (
        again-IsStored left done w (one_round w).0 new (whole (one_round w) ran)
          (λ made eq. round-Stores w made (ran ∙ ap returns eq))
          (rounds-IsStored left (one_round w).0 new) e1)

  -- Where `atomic_update` returns a value, a round of it has stored this value, the last of at most
  -- `iters` rounds, or 64 if the options have none, and those in front of it stored nothing. In this
  -- round `gets` read the key. Where it found something, the callback made the value of what was
  -- found, and a server confirmed, with `ok` or `stored`, the `cas` of the value with the identifier
  -- that `gets` found, which is not 0; else the callback made the value of nothing, and a server
  -- confirmed the `add`. Each step began in the world that the one in front of it left, and the call
  -- ended where the `cas` or the `add` did.
  pub atomic_update-IsStored :
      (w : World) (new : Update)
      → let after =
          atomic_update servers cfg walk gets_command cas_command add_command callback opts w in
        after.1 ≡ returns new → IsStored (if iters opts == 0 then 64 else iters opts) w new after.0
  unfolding atomic_update
  atomic_update-IsStored = rounds-IsStored (if iters opts == 0 then 64 else iters opts)
