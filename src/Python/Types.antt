-- ===== src/Python/Types.antt =====
-- src/python/mcache.cc: what an object is when it is read back, and the caller's flags.
use Prim.Native.Nat.{bit_and, bit_or}
use mcache_client.Prelude.{
  ℕ, ◌*◌, ◌^◌, ◌<◌, ◌≡◌, refl, sym, ◌∙◌, ap, ◌==◌, ==_iff, subst, Bool-cases, inl, inr, arith,
  Bytes, marked, bit_and-mask, bit_and-rest, bit_or-mark, bit_and-no_mark,
}
use mcache_client.Error.{returns, returns_injective, >>=-eq-returns, ◌>>=◌}
use mcache_client.Proto.Options.{Options}
use mcache_client.Python.{
  Base, Object, Interpreter, mask, rest_mask, pickled_mark, double_mark, long_mark, signed_decimal,
  to_string, data_from_string, read_typed, typed, typed_base, mark_with,
}

module _ {F O : Type 0} (py : Interpreter F O) where
  -- What comes back of an object: of a bool, or of an instance of another derived class, the int, the
  -- float or the str that it is; and of a float the one that is read from its six decimals.
  abbrev pub returned_base : Base F → Base F
  returned_base (Base.float x) = Base.float (py.strtold (py.print_f x))
  returned_base base = base

  unfoldable pub returned : Object F O → Object F O
  returned (Object.exact base) = Object.exact (returned_base base)
  returned (Object.derived base class) = Object.exact (returned_base base)
  returned object = object

  -- What Python and the C library do of what is asked of them: a str has these octets, an int fits an
  -- `int64_t` and is read from its decimals, and a pickle is loaded as what was dumped.
  abbrev pub KeepsBase : Base F → Type 0
  KeepsBase (Base.text s) = py.decode s ≡ returns (Object.exact (Base.text s))
  KeepsBase (Base.float x) = Unit {0}
  KeepsBase (Base.long z) = (py.int64 z ≡ returns z) × (py.atoll (signed_decimal z) ≡ z)

  abbrev pub Keeps : Object F O → Type 0
  Keeps (Object.exact base) = KeepsBase base
  Keeps (Object.derived base class) = KeepsBase base
  Keeps object =
      (octets : Bytes) → py.dumps object ≡ returns octets → py.loads octets ≡ returns object

  -- The options that come back: a mark on top of the caller's flags.
  pub record Marked (opts opts' : Options) (m : ℕ) : Type 0 where
    pub few : m < 8
    pub free : opts.flags < 2 ^ 29
    pub flags : opts'.flags ≡ marked m opts.flags
    pub expiration : opts'.expiration ≡ opts.expiration
    pub cas : opts'.cas ≡ opts.cas

  module _ (opts : Options) (small : opts.flags < 2 ^ 32) (free : bit_and opts.flags mask ≡ 0) where
    marking :
        (m : ℕ) → m < 8 → Marked opts (record opts { flags = bit_or opts.flags (536870912 * m) }) m
    marking m few = record {
      few = few;
      free = bit_and-no_mark opts.flags small free;
      flags = bit_or-mark m opts.flags (bit_and-no_mark opts.flags small free);
      expiration = refl;
      cas = refl;
    }

    unmarked : Marked opts opts 0
    unmarked = record {
      few = omega arith;
      free = bit_and-no_mark opts.flags small free;
      flags = omega arith;
      expiration = refl;
      cas = refl;
    }

  -- The mark, and the flags, as they are read back.
  pub mark_of :
      (opts opts' : Options) (m : ℕ)
      → Marked opts opts' m
      → (bit_and opts'.flags mask ≡ 536870912 * m) × (bit_and opts'.flags rest_mask ≡ opts.flags)
  mark_of opts opts' m k = (
    ap (λ f. bit_and f mask) k.flags ∙ bit_and-mask m opts.flags k.few k.free,
    ap (λ f. bit_and f rest_mask) k.flags ∙ bit_and-rest m opts.flags k.free,
  )

  -- The object of marked octets.
  Reads : Object F O → Bytes → Options → Options → Type 0
  Reads object octets opts opts' =
      (data_from_string py octets opts'.flags ≡ returns object)
      × (bit_and opts'.flags rest_mask ≡ opts.flags)
      × (opts'.flags < 2 ^ 32)
      × (opts'.expiration ≡ opts.expiration)
      × (opts'.cas ≡ opts.cas)

  Marked-Reads :
      (object : Object F O) (octets : Bytes) (opts opts' : Options) (m : ℕ)
      → Marked opts opts' m
      → read_typed py (536870912 * m) octets ≡ returns object
      → Reads object octets opts opts'
  unfolding Reads data_from_string
  Marked-Reads object octets opts opts' m k e =
      let (mark, rest) = mark_of opts opts' m k in
      (
        ap (λ x. read_typed py x octets) mark ∙ e,
        rest,
        (let few = k.few in let free = k.free in let flags = k.flags in omega arith),
        k.expiration,
        k.cas,
      )

  typed_base-Reads :
      (base : Base F) (octets : Bytes) (opts opts' : Options)
      → opts.flags < 2 ^ 32
      → bit_and opts.flags mask ≡ 0
      → typed_base py base opts ≡ returns (octets, opts')
      → KeepsBase base
      → Reads (Object.exact (returned_base base)) octets opts opts'
  typed_base-Reads (Base.text s) octets opts opts' small free e k =
      let same = returns_injective e in
      let at =
        Marked-Reads (Object.exact (Base.text s)) s opts opts 0 (unmarked opts small free) k in
      subst (λ (q : Bytes × Options). Reads (Object.exact (Base.text s)) q.0 opts q.1) same at
  typed_base-Reads (Base.float x) octets opts opts' small free e k =
      let back : Object F O = Object.exact (Base.float (py.strtold (py.print_f x))) in
      let at =
        Marked-Reads back (py.print_f x) opts (mark_with double_mark opts) 2
          (marking opts small free 2 (omega arith)) refl in
      subst (λ (q : Bytes × Options). Reads back q.0 opts q.1) (returns_injective e) at
  typed_base-Reads (Base.long z) octets opts opts' small free e (held, read) =
      let (n, got, done) = >>=-eq-returns (py.int64 z) _ e in
      let same : z ≡ n = returns_injective (sym held ∙ got) in
      let back : Object F O = Object.exact (Base.long z) in
      let at =
        Marked-Reads back (signed_decimal z) opts (mark_with long_mark opts) 4
          (marking opts small free 4 (omega arith)) (rw read refl) in
      subst (λ (q : Bytes × Options). Reads back q.0 opts q.1)
        (ap (λ i. (signed_decimal i, mark_with long_mark opts)) same ∙ returns_injective done) at

  pickled-Reads :
      (object : Object F O) (octets : Bytes) (opts opts' : Options)
      → opts.flags < 2 ^ 32
      → bit_and opts.flags mask ≡ 0
      → ◌>>=◌ {B = Bytes × Options}
          (py.dumps object)
          (λ pickle. returns (pickle, mark_with pickled_mark opts))
        ≡ returns (octets, opts')
      → ((pickle : Bytes) → py.dumps object ≡ returns pickle → py.loads pickle ≡ returns object)
      → Reads object octets opts opts'
  pickled-Reads object octets opts opts' small free e k =
      let (pickle, wrote, done) = >>=-eq-returns (py.dumps object) _ e in
      let at =
        Marked-Reads object pickle opts (mark_with pickled_mark opts) 1
          (marking opts small free 1 (omega arith)) (k pickle wrote) in
      subst (λ (q : Bytes × Options). Reads object q.0 opts q.1) (returns_injective done) at

  typed-Reads :
      (object : Object F O) (octets : Bytes) (opts opts' : Options)
      → opts.flags < 2 ^ 32
      → bit_and opts.flags mask ≡ 0
      → typed py object opts ≡ returns (octets, opts')
      → Keeps object
      → Reads (returned object) octets opts opts'
  unfolding returned
  typed-Reads (Object.exact base) octets opts opts' small free e k =
      typed_base-Reads base octets opts opts' small free e k
  typed-Reads (Object.derived base class) octets opts opts' small free e k =
      typed_base-Reads base octets opts opts' small free e k
  typed-Reads Object.nothing octets opts opts' small free e k =
      pickled-Reads Object.nothing octets opts opts' small free e k
  typed-Reads (Object.other o) octets opts opts' small free e k =
      pickled-Reads (Object.other o) octets opts opts' small free e k

  -- What `to_string` makes of an object, `data_from_string` turns back into what comes back of it
  -- (`returned`): the object itself if it is a str, an int, `None` or of another type that is not
  -- derived from str, float or int; the plain str, float or int of one that is, such as a bool; and
  -- for a float the one that stands for its six printed decimals. The flags that the caller chose are
  -- the ones that he reads back, still in 32 bits, and the expiration and the `cas` are left alone.
  -- Here the flags have 32 bits, `to_string` returns, and Python and the C library read the str, the
  -- int or the pickle as they wrote it (`Keeps`).
  pub data_from_string-to_string :
      (object : Object F O) (octets : Bytes) (opts opts' : Options)
      → opts.flags < 2 ^ 32
      → to_string py object opts ≡ returns (octets, opts')
      → Keeps object
      → (data_from_string py octets opts'.flags ≡ returns (returned object))
        × (bit_and opts'.flags rest_mask ≡ opts.flags)
        × (opts'.flags < 2 ^ 32)
        × (opts'.expiration ≡ opts.expiration)
        × (opts'.cas ≡ opts.cas)
  unfolding to_string Reads
  data_from_string-to_string object octets opts opts' small e k =
      elim (Bool-cases (bit_and opts.flags mask == 0)) [
        | inl free ↦
            typed-Reads object octets opts opts' small ((==_iff (bit_and opts.flags mask) 0).0 free)
              (rw free at e) k
        | inr taken ↦ let refused = rw taken at e in absurd cc
      ]
