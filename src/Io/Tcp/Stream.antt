-- ===== src/Io/Tcp/Stream.antt =====
-- The reads of a TCP connection against a plain stream of octets: how the network cuts the stream into
-- pieces makes no difference.
use mcache_client.Prelude.{
  ℕ, ◌+◌, ◌≤◌, ◌≡◌, refl, sym, ap, subst, inl, inr, true, List, [], ◌∷◌, ◌++◌, Option, none, some,
  arith, Option-cases, Bytes, take, drop, length, append_assoc, append-nil, length-append,
  take-append_le, drop-append_le,
}
use mcache_client.Error.{IoErrorCode, Exception, Result, returns, throws}
use mcache_client.Io.Search.{split_first, split_first-append, split_first-parts}
use mcache_client.Io.Tcp.{
  Arrival, chunk, breaks, Tcp, Waiting, ready, broken, silent, gather, arrivals, up_to, at_least,
  settled, read_until, read,
}

-- The octets that arrive in front of the first error.
abbrev pub octets : List Arrival → Bytes
octets [] = []
octets (chunk s ∷ rest) = s ++ octets rest
octets (breaks msg ∷ rest) = []

-- All that an open connection can still read.
abbrev pub stream : {P : Type 0} → Tcp P → Bytes
stream t = t.input ++ octets t.incoming

-- A test for enough input that later octets do not change.
abbrev pub Stable : (Bytes → Option ℕ) → Type 0
Stable enough =
    (s rest : Bytes) (n : ℕ) → enough s ≡ some n → (n ≤ length s) × (enough (s ++ rest) ≡ some n)

pub up_to-Stable : (delimiter : Bytes) → Stable (up_to delimiter)
unfolding up_to
up_to-Stable delimiter s rest n e = elim (Option-cases (split_first delimiter s)) [
  | inl missed ↦ absurd (cc (rw missed at e))
  | inr ((a, b), hit) ↦
      let count : some (length a + length delimiter) ≡ some n = rw hit at e in
      let same : length a + length delimiter ≡ n = cc count in
      let parts = ap length (split_first-parts delimiter s a b hit) in
      (
        omega (arith, same, parts, length-append a (delimiter ++ b), length-append delimiter b),
        rw (split_first-append delimiter s rest a b hit).1 count,
      )
]

pub at_least-Stable : (count : ℕ) → Stable (at_least count)
unfolding at_least
at_least-Stable count s rest n e = ground (arith, length-append s rest)

-- What is left of the stream behind a wait that ended well.
abbrev Gathers : Bytes → ℕ → Bytes × List Arrival × Waiting → Type 0
Gathers whole n (input, rest, waiting) =
    (waiting ≡ ready n) × (n ≤ length input) × (input ++ octets rest ≡ whole)

-- A wait that ends without enough.
abbrev Fails : Waiting → Type 0
Fails (ready n) = ⊥
Fails (broken msg) = Unit
Fails silent = Unit

module _ (enough : Bytes → Option ℕ) (stable : Stable enough) where
  gather-enough :
      (arriving : List Arrival) (input : Bytes) (n : ℕ)
      → enough input ≡ some n
      → gather enough arriving input ≡ (input, arriving, ready n)
  unfolding gather
  gather-enough [] input n e = rw e refl
  gather-enough (chunk s ∷ rest) input n e = rw (e, gather) refl
  gather-enough (breaks msg ∷ rest) input n e = rw (e, gather) refl

  gather-more :
      (s : Bytes) (rest : List Arrival) (input : Bytes)
      → enough input ≡ none
      → gather enough (chunk s ∷ rest) input ≡ gather enough rest (input ++ s)
  unfolding gather
  gather-more s rest input e = rw (e, gather) refl

  gather-breaks :
      (msg : Bytes) (rest : List Arrival) (input : Bytes)
      → enough input ≡ none
      → gather enough (breaks msg ∷ rest) input ≡ (input, rest, broken msg)
  unfolding gather
  gather-breaks msg rest input e = rw (e, gather) refl

  gather_at_once :
      (arriving : List Arrival) (input : Bytes) (n m : ℕ)
      → enough (input ++ octets arriving) ≡ some n
      → enough input ≡ some m
      → Gathers (input ++ octets arriving) n (gather enough arriving input)
  gather_at_once arriving input n m e hit =
      let same : m ≡ n = cc ((stable input (octets arriving) m hit).1, e) in
      rw (gather-enough arriving input m hit)
        (ap ready same, omega (arith, same, (stable input (octets arriving) m hit).0), refl)

  pub gather-Gathers :
      (arriving : List Arrival) (input : Bytes) (n : ℕ)
      → enough (input ++ octets arriving) ≡ some n
      → Gathers (input ++ octets arriving) n (gather enough arriving input)
  gather-Gathers [] input n e =
      gather_at_once [] input n n e (subst (λ s. enough s ≡ some n) (append-nil input) e)
  gather-Gathers (chunk s ∷ rest) input n e = elim (Option-cases (enough input)) [
    | inr (m, hit) ↦ gather_at_once (chunk s ∷ rest) input n m e hit
    | inl missed ↦
        rw (gather-more s rest input missed, sym (append_assoc input s (octets rest)))
          (gather-Gathers rest (input ++ s) n
            (subst (λ t. enough t ≡ some n) (sym (append_assoc input s (octets rest))) e))
  ]
  gather-Gathers (breaks msg ∷ rest) input n e =
      gather_at_once (breaks msg ∷ rest) input n n e
        (subst (λ s. enough s ≡ some n) (append-nil input) e)

  pub gather-Fails :
      (arriving : List Arrival) (input : Bytes)
      → enough (input ++ octets arriving) ≡ none
      → Fails (gather enough arriving input).2
  gather-Fails [] input e =
      let nothing : enough input ≡ none = subst (λ s. enough s ≡ none) (append-nil input) e in
      unfold gather in rw nothing tt
  gather-Fails (chunk s ∷ rest) input e = elim (Option-cases (enough input)) [
    | inr (m, hit) ↦ absurd (cc ((stable input (s ++ octets rest) m hit).1, e))
    | inl missed ↦ rw (gather-more s rest input missed) (
        gather-Fails rest (input ++ s)
          (subst (λ t. enough t ≡ none) (sym (append_assoc input s (octets rest))) e))
  ]
  gather-Fails (breaks msg ∷ rest) input e =
      let nothing : enough input ≡ none = subst (λ s. enough s ≡ none) (append-nil input) e in
      rw (gather-breaks msg rest input nothing) tt

module _ {P : Type 0} where
  abbrev pub ReadsAs : Option ℕ → Tcp P → Tcp P × Result Bytes → Type 0
  ReadsAs (some n) t (t', result) =
      (result ≡ returns (take n (stream t)))
      × (stream t' ≡ drop n (stream t))
      × (t'.is_open ≡ true)
      × (t'.peer ≡ t.peer)
  ReadsAs none t (t', result) =
      (code : IoErrorCode) × (msg : Bytes) × (result ≡ throws (Exception.io_error code msg))

  -- What a read comes to, by the stream alone: so many octets of its front, or an exception of the
  -- input and output library.
  abbrev pub Reads : (Bytes → Option ℕ) → Tcp P → Tcp P × Result Bytes → Type 0
  Reads enough t q = ReadsAs (enough (stream t)) t q

  -- Where there is enough, the front of the stream is read.
  pub Reads-enough :
      (enough : Bytes → Option ℕ) (t : Tcp P) (q : Tcp P × Result Bytes) (n : ℕ)
      → Reads enough t q
      → enough (stream t) ≡ some n
      → ReadsAs (some n) t q
  Reads-enough enough t q n r e = rw e at r

  settled-Reads :
      (enough : Bytes → Option ℕ) (t : Tcp P) (q : Bytes × List Arrival × Waiting)
      → t.is_open ≡ true
      → ((n : ℕ) → enough (stream t) ≡ some n → Gathers (stream t) n q)
      → (enough (stream t) ≡ none → Fails q.2)
      → Reads enough t (settled t q)
  settled-Reads enough t q o g f = elim (Option-cases (enough (stream t))) [
    | inr (n, e) ↦ rw e (settled_enough n q (g n e))
    | inl e ↦ rw e (settled_none q (f e))
  ]
    where
      settled_enough :
          (n : ℕ) (q : Bytes × List Arrival × Waiting)
          → Gathers (stream t) n q
          → ReadsAs (some n) t (settled t q)
      settled_enough n (input, rest, ready m) (same, fits, whole) =
          let eq : m ≡ n = cc same in
          rw (eq, sym whole)
            (
              ap returns (sym (take-append_le n input (octets rest) fits)),
              sym (drop-append_le n input (octets rest) fits),
              o,
              refl,
            )
      settled_enough n (input, rest, broken msg) (same, fits, whole) = absurd (cc same)
      settled_enough n (input, rest, silent) (same, fits, whole) = absurd (cc same)

      settled_none : (q : Bytes × List Arrival × Waiting) → Fails q.2 → ReadsAs none t (settled t q)
      settled_none (input, rest, ready m) h = absurd h
      settled_none (input, rest, broken msg) h = (IoErrorCode.io_error, msg, refl)
      settled_none (input, rest, silent) h = (IoErrorCode.timeout, _, refl)

  pub arrivals_open : (t : Tcp P) → t.is_open ≡ true → arrivals t ≡ t.incoming
  arrivals_open t o = rw o

  -- A read up to a delimiter is decided by the stream that an open connection has, whatever the pieces
  -- in which it arrives: it takes the octets up to the first delimiter, and the delimiter, from its
  -- front and leaves the rest, or throws an `io::error_t` where there is none.
  pub read_until-Reads :
      (delimiter : Bytes) (t : Tcp P)
      → t.is_open ≡ true
      → Reads (up_to delimiter) t (read_until delimiter t)
  unfolding read_until
  read_until-Reads delimiter t o = rw (arrivals_open t o) (
      settled-Reads (up_to delimiter) t (gather (up_to delimiter) t.incoming t.input) o
        (gather-Gathers (up_to delimiter) (up_to-Stable delimiter) t.incoming t.input)
        (gather-Fails (up_to delimiter) (up_to-Stable delimiter) t.incoming t.input))

  -- So is a read of a number of octets.
  pub read-Reads :
      (count : ℕ) (t : Tcp P) → t.is_open ≡ true → Reads (at_least count) t (read count t)
  unfolding read
  read-Reads count t o = rw (arrivals_open t o) (
      settled-Reads (at_least count) t (gather (at_least count) t.incoming t.input) o
        (gather-Gathers (at_least count) (at_least-Stable count) t.incoming t.input)
        (gather-Fails (at_least count) (at_least-Stable count) t.incoming t.input))
