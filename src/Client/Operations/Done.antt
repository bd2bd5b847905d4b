-- ===== src/Client/Operations/Done.antt =====
-- include/mcache/client.h: what it means that an operation reports a success.
use mcache_client.Prelude.{
  ℕ, ◌≡◌, ◌≢◌, refl, sym, ◌∙◌, ap, subst, Bool, true, false, List, [], ◌⊎◌, inl, inr, Bytes, ◌==◌,
  Bool-cases, arith,
}
use mcache_client.Error.{ResponseCode, Result, returns}
use mcache_client.Proto.Command.{Command, Action, ◌>>=◌, lift, >>=-returns, >>=-of-returns}
use mcache_client.Proto.Options.{Options}
use mcache_client.Proto.Response.{IsResponse, single_retrieval_response}
use mcache_client.Client.{Config, Servers, run}
use mcache_client.Client.Operations.{
  operate, set, add, cas, del, set_outcome, add_outcome, cas_outcome, del_outcome,
}
use mcache_client.Client.Operations.Confirmed.{Sent, run-Sent}

abbrev pub StoredCode : ResponseCode → Type 0
StoredCode c = (c ≡ ResponseCode.ok) ⊎ (c ≡ ResponseCode.stored)

abbrev pub DeletedCode : ResponseCode → Type 0
DeletedCode c = (c ≡ ResponseCode.ok) ⊎ (c ≡ ResponseCode.deleted)

not_found-StoredCode : ¬ (StoredCode ResponseCode.not_found)
not_found-StoredCode (inl e) = cc
not_found-StoredCode (inr e) = cc

not_found-DeletedCode : ¬ (DeletedCode ResponseCode.not_found)
not_found-DeletedCode (inl e) = cc
not_found-DeletedCode (inr e) = cc

module _ (servers : Servers) (cfg : Config) (walk : Bytes → List ℕ) {R : Type 0}
    ⦃i : IsResponse R⦄ where
  open servers use {World}

  -- What an operation returns is made of a response that `run` returned, and it ends where `run` does.
  pub operate-returns :
      {A : Type 0} (command : Command R) (h404 : Bool) (outcome : R → ResponseCode → Result A)
      (w : World) (a : A)
      → let after = operate servers cfg walk (returns command) h404 outcome w in
        after.1 ≡ returns a
        → (r : R) × (Sent servers cfg command h404 (walk command.key) w r after.0
            ⊎ (r ≡ i.of_status ResponseCode.not_found []))
          × (outcome r (i.code r) ≡ returns a)
  unfolding operate
  operate-returns {A} command h404 outcome w a e =
      let asked = run servers cfg command h404 (walk command.key) in
      let made : R → Action World A = λ response. lift (outcome response (i.code response)) in
      let (r, ran, done) = >>=-returns (asked w) made e in
      let ends : ((asked >>= made) w).0 ≡ (asked w).0 =
        ap (λ q. q.0) (>>=-of-returns asked made w ran) in
      (
        r,
        subst
            (λ w'.
              Sent servers cfg command h404 (walk command.key) w r w'
              ⊎ (r ≡ i.of_status ResponseCode.not_found []))
            (sym ends) (run-Sent servers cfg command h404 (walk command.key) w r ran),
        done,
      )

  -- The run of the command from the world `w` came to a server that could be called, by way of servers
  -- that had no answer, and ended in the world `w'` with a response of that server with such a code.
  abbrev pub Confirmed : Command R → World → World → (ResponseCode → Type 0) → Type 0
  Confirmed command w w' Good =
      (r : R) × Sent servers cfg command false (walk command.key) w r w' × Good (i.code r)

  set_outcome-returns : (r : R) (c : ResponseCode) → set_outcome r c ≡ returns tt → StoredCode c
  unfolding set_outcome
  set_outcome-returns r ResponseCode.ok e = inl refl
  set_outcome-returns r ResponseCode.stored e = inr refl
  set_outcome-returns r _ e = absurd cc

  add_outcome-true : (r : R) (c : ResponseCode) → add_outcome r c ≡ returns true → StoredCode c
  unfolding add_outcome
  add_outcome-true r ResponseCode.ok e = inl refl
  add_outcome-true r ResponseCode.stored e = inr refl
  add_outcome-true r _ e = absurd cc

  cas_outcome-true : (r : R) (c : ResponseCode) → cas_outcome r c ≡ returns true → StoredCode c
  unfolding cas_outcome
  cas_outcome-true r ResponseCode.ok e = inl refl
  cas_outcome-true r ResponseCode.stored e = inr refl
  cas_outcome-true r _ e = absurd cc

  del_outcome-true : (r : R) (c : ResponseCode) → del_outcome r c ≡ returns true → DeletedCode c
  unfolding del_outcome
  del_outcome-true r ResponseCode.ok e = inl refl
  del_outcome-true r ResponseCode.deleted e = inr refl
  del_outcome-true r _ e = absurd cc

  -- `not_found` is no code of a success.
  confirm :
      {A : Type 0} (Good : ResponseCode → Type 0) (command : Command R)
      (outcome : R → ResponseCode → Result A) (a : A) (w : World)
      → ((r : R) (c : ResponseCode) → outcome r c ≡ returns a → Good c)
      → ¬ (Good ResponseCode.not_found)
      → let after = operate servers cfg walk (returns command) false outcome w in
        after.1 ≡ returns a → Confirmed command w after.0 Good
  confirm Good command outcome a w good bad e =
      let (r, source, made) = operate-returns command false outcome w a e in
      elim source [
        | inl sent ↦ (r, sent, good r (i.code r) made)
        | inr missed ↦ absurd (
            bad (
              subst Good (ap (λ x. i.code x) missed ∙ i.code-of_status ResponseCode.not_found [])
                (good r (i.code r) made)))
      ]

  -- Where `set` returns, its run came, by way of servers of the key's walk that were tried in order and
  -- had no answer, to a server that could be called, and ended with that server's answer to the
  -- command, `ok` or `stored`.
  pub set-Confirmed :
      (command : Command R) (w : World)
      → let after = set servers cfg walk (returns command) w in
        after.1 ≡ returns tt → Confirmed command w after.0 StoredCode
  unfolding set
  set-Confirmed command w =
      confirm StoredCode command set_outcome tt w set_outcome-returns not_found-StoredCode

  -- Where `add` returns true, its run ended with a server's answer `ok` or `stored` to the command.
  pub add-Confirmed :
      (command : Command R) (w : World)
      → let after = add servers cfg walk (returns command) w in
        after.1 ≡ returns true → Confirmed command w after.0 StoredCode
  unfolding add
  add-Confirmed command w =
      confirm StoredCode command add_outcome true w add_outcome-true not_found-StoredCode

  -- Where `del` returns true, its run ended with a server's answer `ok` or `deleted` to the command.
  pub del-Confirmed :
      (command : Command R) (w : World)
      → let after = del servers cfg walk (returns command) w in
        after.1 ≡ returns true → Confirmed command w after.0 DeletedCode
  unfolding del
  del-Confirmed command w =
      confirm DeletedCode command del_outcome true w del_outcome-true not_found-DeletedCode

  -- Where `cas` returns true, its options had an identifier, and its run came, by way of servers of the
  -- key's walk that were tried in order and had no answer, to a server that could be called, and ended
  -- with that server's answer to the command, `ok` or `stored`.
  pub cas-Confirmed :
      (command : Options → Command R) (opts : Options) (w : World)
      → let after = cas servers cfg walk (λ o. returns (command o)) opts w in
        after.1 ≡ returns true → (opts.cas ≢ 0) × Confirmed (command opts) w after.0 StoredCode
  unfolding cas
  cas-Confirmed command opts w e = elim (Bool-cases (opts.cas == 0)) [
    | inl none_given ↦ absurd (cc (rw none_given at e))
    | inr given ↦ (
      (λ (z : opts.cas ≡ 0). absurd (ground arith)),
      rw given (
          confirm StoredCode (command opts) cas_outcome true w cas_outcome-true not_found-StoredCode
            (rw given at e)),
    )
  ]
