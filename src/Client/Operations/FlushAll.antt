-- ===== src/Client/Operations/FlushAll.antt =====
-- include/mcache/client.h: `run_all` and `flush_all`.
use mcache_client.Prelude.{
  ℕ, suc, ◌+◌, ◌%◌, ◌^◌, ◌<◌, ◌≤◌, ◌≡◌, ◌≢◌, ◌↔◌, refl, Bool, true, false, List, [], ◌∷◌, ◌++◌, inl,
  inr, ◌⊎◌, Bytes, codes, ◌==◌, if◌then◌else◌, Bool-cases, arith, length, All,
}
use mcache_client.Error.{ResponseCode, returns}
use mcache_client.Proto.Command.{Command, Action, ◌>>=◌, lift}
use mcache_client.Proto.Response.{IsResponse}
use mcache_client.Client.{Servers}
use mcache_client.Client.Operations.{Found, message}

-- `code() != proto::resp::ok`.
unfoldable pub is_ok : ResponseCode → Bool
is_ok ResponseCode.ok = true
is_ok _ = false

is_ok-cases : (c : ResponseCode) → (c ≡ ResponseCode.ok) ⊎ (is_ok c ≡ false)
unfolding is_ok
is_ok-cases ResponseCode.ok = inl refl
is_ok-cases _ = inr refl

module _ (servers : Servers) {R : Type 0} ⦃i : IsResponse R⦄ (command : Command R) where
  open servers use {World}

  -- What one server answers: for a dead one a response is made up.
  unfoldable pub answer : ℕ → Action World R
  answer idx w =
      let (w1, alive) = servers.callable idx w in
      let asked = servers.send R command idx w1 in
      if alive then asked else (w1, returns (i.of_status ResponseCode.error (codes "dead")))

  -- `run_all`, over the indices of the proxies.
  unfoldable pub run_all : List ℕ → Action World (List R)
  unfolding answer
  run_all [] = lift (returns [])
  run_all (idx ∷ rest) = do
    response ← answer idx
    responses ← run_all rest
    lift (returns (response ∷ responses))

abbrev separated : Bytes → Bytes
separated [] = []
separated (c ∷ descs) = (c ∷ descs) ++ codes ", "

-- What `flush_all` counts, in 32 bits, and the descriptions that it joins.
module _ {R : Type 0} ⦃i : IsResponse R⦄ where
  abbrev described : Bytes → R → Bytes
  described descs response = separated descs ++ (codes "<" ++ (i.text response ++ codes ">"))

  unfoldable pub summary : List R → ℕ → Bytes → ℕ × Bytes
  unfolding is_ok
  summary [] errs descs = (errs, descs)
  summary (response ∷ rest) errs descs =
      let failing = summary rest (suc errs % 2 ^ 32) (described descs response) in
      let going_on = summary rest errs descs in
      if is_ok (i.code response) then going_on else failing

  unfoldable pub flush_result : List R → Found
  unfolding summary
  flush_result responses = let (errs, descs) = summary responses 0 [] in message (errs == 0) descs

  -- Every server has done it.
  abbrev pub AllOk : List R → Type 0
  AllOk = All λ r. i.code r ≡ ResponseCode.ok

  summary-AllOk :
      (rs : List R) (errs : ℕ) (descs : Bytes) → AllOk rs → summary rs errs descs ≡ (errs, descs)
  unfolding summary is_ok
  summary-AllOk [] errs descs h = refl
  summary-AllOk (r ∷ rs) errs descs (fine, h) = rw fine (summary-AllOk rs errs descs h)

  errs_grow :
      (rs : List R) (errs : ℕ) (descs : Bytes)
      → errs + length rs < 2 ^ 32
      → errs ≤ (summary rs errs descs).0
  unfolding summary
  errs_grow [] errs descs h = omega arith
  errs_grow (r ∷ rs) errs descs h = elim (is_ok-cases (i.code r)) [
    | inl fine ↦ unfold is_ok in rw fine (errs_grow rs errs descs (omega arith))
    | inr failing ↦
        let small : suc errs % 2 ^ 32 ≡ suc errs = omega arith in
        let more : suc errs ≤ (summary rs (suc errs) (described descs r)).0 =
          errs_grow rs (suc errs) (described descs r) (omega arith) in
        rw (failing, small) (omega arith)
  ]

  found-AllOk :
      (rs : List R) (descs : Bytes) → length rs < 2 ^ 32 → (summary rs 0 descs).0 ≡ 0 → AllOk rs
  unfolding summary
  found-AllOk [] descs h e = tt
  found-AllOk (r ∷ rs) descs h e = elim (is_ok-cases (i.code r)) [
    | inl fine ↦ (fine, found-AllOk rs descs (omega arith) (unfold is_ok in rw fine at e))
    | inr failing ↦
        let more : 1 ≤ (summary rs 1 (described descs r)).0 =
          errs_grow rs 1 (described descs r) (omega arith) in
        let none_counted : (summary rs 1 (described descs r)).0 ≡ 0 = rw failing at e in
        absurd (omega arith)
  ]

  described-ne-nil : (descs : Bytes) (r : R) → described descs r ≢ []
  unfolding codes
  described-ne-nil [] r = λ e. cc
  described-ne-nil (c ∷ descs) r = λ e. cc

  descs_stay :
      (rs : List R) (errs : ℕ) (descs : Bytes) → descs ≢ [] → (summary rs errs descs).1 ≢ []
  unfolding summary
  descs_stay [] errs descs h = h
  descs_stay (r ∷ rs) errs descs h = elim (Bool-cases (is_ok (i.code r))) [
    | inl fine ↦ rw fine (descs_stay rs errs descs h)
    | inr failing ↦
        rw failing
          (descs_stay rs (suc errs % 2 ^ 32) (described descs r) (described-ne-nil descs r))
  ]

  text-AllOk : (rs : List R) → (summary rs 0 []).1 ≡ [] → AllOk rs
  unfolding summary
  text-AllOk [] e = tt
  text-AllOk (r ∷ rs) e = elim (is_ok-cases (i.code r)) [
    | inl fine ↦ (fine, text-AllOk rs (unfold is_ok in rw fine at e))
    | inr failing ↦
        absurd (descs_stay rs 1 (described [] r) (described-ne-nil [] r) (rw failing at e))
  ]

  -- For fewer than 2 ^ 32 responses the result of `flush_all` says that all is well exactly where every
  -- response is `ok`, and its description is empty exactly then.
  pub flush_result-AllOk :
      (rs : List R)
      → length rs < 2 ^ 32
      → ((flush_result rs).found ≡ true ↔ AllOk rs) × ((flush_result rs).text ≡ [] ↔ AllOk rs)
  unfolding flush_result
  flush_result-AllOk rs h = (
    ((λ e. found-AllOk rs [] h (ground arith)), (λ a. rw (summary-AllOk rs 0 [] a) refl)),
    (text-AllOk rs, λ a. rw (summary-AllOk rs 0 [] a) refl),
  )

module _ (servers : Servers) {R : Type 0} ⦃i : IsResponse R⦄ where
  unfoldable pub flush_all : Command R → List ℕ → Action servers.World Found
  unfolding run_all flush_result
  flush_all command all = do
    responses ← run_all servers command all
    lift (returns (flush_result responses))
