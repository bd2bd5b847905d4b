-- ===== src/Client/Operations/Update/Attempts.antt =====
-- include/mcache/client.h: what a round of `atomic_update` has stored, with `cas` or with `add`.
use mcache_client.Prelude.{
  ℕ, ◌≡◌, ◌≢◌, refl, sym, ◌∙◌, ap, Bool, true, false, List, [], Bytes, Option, some, subst,
}
use mcache_client.Error.{ResponseCode, proto_error, Result, returns, throws, returns_injective}
use mcache_client.Proto.Command.{Command, Action, ◌>>=◌, lift, >>=-returns, >>=-of-returns}
use mcache_client.Proto.Options.{Options}
use mcache_client.Proto.Response.{IsResponse, SingleRetrievalResponse, single_retrieval_response}
use mcache_client.Client.{Config, Servers}
use mcache_client.Client.Operations.{Found, cas, add}
use mcache_client.Client.Operations.Done.{StoredCode, Confirmed, add-Confirmed, cas-Confirmed}
use mcache_client.Client.Operations.Update.{
  Update, update_opts, stored_if, ignore_exists, try_cas, try_add,
}

-- A step that returns, as the pair of its world and its value.
pub whole : {W A : Type 0} (q : W × Result A) {a : A} → q.1 ≡ returns a → q ≡ (q.0, returns a)
whole q e = ap (λ r. (q.0, r)) e

ignore_exists-some :
    {W : Type 0} (q : W × Result (Option Update)) (new : Update)
    → (ignore_exists q).1 ≡ returns (some new)
    → (q.1 ≡ returns (some new)) × ((ignore_exists q).0 ≡ q.0)
ignore_exists-some (w, returns r) new e = (e, refl)
ignore_exists-some (w, throws (proto_error ResponseCode.exists text)) new e = absurd cc
ignore_exists-some (w, throws x) new e = absurd cc

stored_if-some :
    (new new' : Update) (done : Bool)
    → stored_if new done ≡ some new'
    → (done ≡ true) × (new ≡ new')
stored_if-some new new' true e = (refl, cc)
stored_if-some new new' false e = absurd cc

module _ (servers : Servers) (cfg : Config) (walk : Bytes → List ℕ) {R : Type 0} ⦃i : IsResponse R⦄
    (gets_command : Command SingleRetrievalResponse)
    (cas_command add_command : Bytes → Options → Command R)
    (callback : Bytes → ℕ → Action servers.World Update) (opts : Options) where
  open servers use {World}

  -- The callback made the new value of what was read, and a server confirmed its `cas` with the
  -- identifier that was read, which is not 0; the run of the `cas` began where the callback ended.
  abbrev pub ByCas : Found → World → Update → World → Type 0
  ByCas found u new w' =
      (v : World) × (callback found.text found.flags u ≡ (v, returns new))
      × (found.cas ≢ 0)
      × Confirmed servers cfg walk (cas_command new.0 (update_opts opts new found.cas)) v w'
          StoredCode

  -- The callback made the new value of nothing, and a server confirmed its `add`.
  abbrev pub ByAdd : World → Update → World → Type 0
  ByAdd u new w' =
      (v : World) × (callback [] 0 u ≡ (v, returns new))
      × Confirmed servers cfg walk (add_command new.0 (update_opts opts new 0)) v w' StoredCode

  -- Behind the callback: the command, and what its outcome comes to.
  module _ (ask : Action World Bool) (made new : Update) (v : World) where
    abbrev settled : Action World (Option Update)
    settled = ask >>= λ done. lift (returns (stored_if made done))

    settled-some :
        (settled v).1 ≡ returns (some new)
        → ((ask v).1 ≡ returns true) × (made ≡ new) × ((settled v).0 ≡ (ask v).0)
    settled-some e =
        let end : Bool → Action World (Option Update) =
          λ done. lift (returns (stored_if made done)) in
        let (done, ran, e') = >>=-returns (ask v) end e in
        let (won, same) = stored_if-some made new done (returns_injective e') in
        (ran ∙ ap returns won, same, ap (λ q. q.0) (>>=-of-returns ask end v ran))

  abbrev pub cas_step : Found → Action World (Option Update)
  cas_step = try_cas servers cfg walk gets_command cas_command add_command callback opts

  abbrev pub add_step : Action World (Option Update)
  add_step = try_add servers cfg walk gets_command cas_command add_command callback opts

  pub try_cas-ByCas :
      (found : Found) (u : World) (new : Update)
      → let after = cas_step found u in after.1 ≡ returns (some new) → ByCas found u new after.0
  unfolding try_cas
  try_cas-ByCas found u new e =
      let ask : Update → Action World Bool = λ made.
        cas servers cfg walk (λ o. returns (cas_command made.0 o))
          (update_opts opts made found.cas) in
      let act : Update → Action World (Option Update) =
        λ made w. ignore_exists (settled (ask made) made new w w) in
      let (made, called, e1) = >>=-returns (callback found.text found.flags u) act e in
      let v = (callback found.text found.flags u).0 in
      let began = ap (λ q. q.0) (>>=-of-returns (callback found.text found.flags) act u called) in
      let (e2, kept) = ignore_exists-some (settled (ask made) made new v v) new e1 in
      let (won, same, ended) = settled-some (ask made) made new v e2 in
      let (given, confirmed) =
        cas-Confirmed servers cfg walk (cas_command made.0) (update_opts opts made found.cas) v
          won in
      subst (λ n. ByCas found u n (cas_step found u).0) same
        (subst (ByCas found u made) (sym (began ∙ kept ∙ ended))
          (v, whole (callback found.text found.flags u) called, given, confirmed))

  pub try_add-ByAdd :
      (u : World) (new : Update)
      → let after = add_step u in after.1 ≡ returns (some new) → ByAdd u new after.0
  unfolding try_add
  try_add-ByAdd u new e =
      let ask : Update → Action World Bool =
        λ made. add servers cfg walk (returns (add_command made.0 (update_opts opts made 0))) in
      let act : Update → Action World (Option Update) = λ made w. settled (ask made) made new w w in
      let (made, called, e1) = >>=-returns (callback [] 0 u) act e in
      let v = (callback [] 0 u).0 in
      let began = ap (λ q. q.0) (>>=-of-returns (callback [] 0) act u called) in
      let (won, same, ended) = settled-some (ask made) made new v e1 in
      subst (λ n. ByAdd u n (add_step u).0) same
        (subst (ByAdd u made) (sym (began ∙ ended)) (
          v,
          whole (callback [] 0 u) called,
          add-Confirmed servers cfg walk (add_command made.0 (update_opts opts made 0)) v won,
        ))
