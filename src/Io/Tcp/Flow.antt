-- ===== src/Io/Tcp/Flow.antt =====
-- A connection on which no error is under way stays so under the reads.
use mcache_client.Prelude.{
  ℕ, ◌≡◌, refl, sym, ◌∙◌, ap, inl, inr, true, List, [], ◌∷◌, ◌++◌, Option, Option-cases, Bytes,
  append_assoc,
}
use mcache_client.Io.Tcp.{
  Arrival, chunk, breaks, Tcp, Waiting, ready, broken, silent, gather, up_to, at_least, settled,
  read_until, read,
}
use mcache_client.Io.Tcp.Stream.{octets, arrivals_open}

-- Arrivals without an error among them.
abbrev pub Flows : List Arrival → Type 0
Flows [] = Unit {0}
Flows (chunk s ∷ rest) = Flows rest
Flows (breaks msg ∷ rest) = ⊥

pub octets-append : (xs ys : List Arrival) → Flows xs → octets (xs ++ ys) ≡ octets xs ++ octets ys
octets-append [] ys f = refl
octets-append (chunk s ∷ xs) ys f =
    ap (◌++◌ s) (octets-append xs ys f) ∙ sym (append_assoc s (octets xs) (octets ys))
octets-append (breaks msg ∷ xs) ys f = absurd f

pub Flows-append : (xs ys : List Arrival) → Flows xs → Flows ys → Flows (xs ++ ys)
Flows-append [] ys f g = g
Flows-append (chunk s ∷ xs) ys f g = Flows-append xs ys f g
Flows-append (breaks msg ∷ xs) ys f g = absurd f

gather-Flows :
    (enough : Bytes → Option ℕ) (arriving : List Arrival) (input : Bytes)
    → Flows arriving
    → Flows (gather enough arriving input).1
unfolding gather
gather-Flows enough [] input f = f
gather-Flows enough (chunk s ∷ rest) input f = elim (Option-cases (enough input)) [
  | inr (n, e) ↦ rw (e, gather) f
  | inl e ↦ rw (e, gather) (gather-Flows enough rest (input ++ s) f)
]
gather-Flows enough (breaks msg ∷ rest) input f = absurd f

module _ {P : Type 0} where
  settled-Flows :
      (t : Tcp P) (q : Bytes × List Arrival × Waiting) → Flows q.1 → Flows (settled t q).0.incoming
  settled-Flows t (input, rest, ready n) f = f
  settled-Flows t (input, rest, broken msg) f = f
  settled-Flows t (input, rest, silent) f = f

  pub read_until-Flows :
      (delimiter : Bytes) (t : Tcp P)
      → t.is_open ≡ true
      → Flows t.incoming
      → Flows (read_until delimiter t).0.incoming
  unfolding read_until
  read_until-Flows delimiter t o f = rw (arrivals_open t o) (
      settled-Flows t (gather (up_to delimiter) t.incoming t.input)
        (gather-Flows (up_to delimiter) t.incoming t.input f))

  pub read-Flows :
      (count : ℕ) (t : Tcp P)
      → t.is_open ≡ true
      → Flows t.incoming
      → Flows (read count t).0.incoming
  unfolding read
  read-Flows count t o f = rw (arrivals_open t o) (
      settled-Flows t (gather (at_least count) t.incoming t.input)
        (gather-Flows (at_least count) t.incoming t.input f))
