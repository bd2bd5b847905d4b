-- ===== src/Client/Operations/Typed.antt =====
-- include/mcache/client.h: the operations on values of other types than strings. `aux::cnv` of
-- include/mcache/conversion.h, which callers may extend, is a parameter.
use mcache_client.Prelude.{ℕ, ◌%◌, ◌^◌, Bool, List, Bytes, decimal}
use mcache_client.Error.{Result, returns}
use mcache_client.Client.{Config, Servers}
use mcache_client.Client.Operations.{Found, set, add, replace, cas}
use mcache_client.Proto.Command.{Command, Action, ◌>>=◌, lift}
use mcache_client.Proto.Options.{Options}
use mcache_client.Proto.Response.{IsResponse}

-- `aux::cnv<type_t>`: either direction may throw.
pub record Conversion (T : Type 0) : Type 0 where
  pub to_bytes : T → Result Bytes
  pub from_bytes : Bytes → Result T

-- `cnv<uint64_t>`: what `snprintf` writes of a number, and what the C library's `atoll` reads.
unfoldable pub integral : (Bytes → ℕ) → Conversion ℕ
integral atoll = record {
  to_bytes = λ n. returns (decimal n);
  from_bytes = λ octets. returns (atoll octets % 2 ^ 64);
}

-- `result_t::as`.
unfoldable pub found_as : {T : Type 0} → Conversion T → Found → Result T
found_as cnv found = cnv.from_bytes found.text

-- The value is converted first; `call` goes on with the octets.
abbrev pub converted : {W T A : Type 0} → Conversion T → (Bytes → Action W A) → T → Action W A
converted cnv call value = lift (cnv.to_bytes value) >>= call

-- `new` makes the command of the octets.
module _ (servers : Servers) (cfg : Config) (walk : Bytes → List ℕ) {R T : Type 0}
    ⦃i : IsResponse R⦄ (cnv : Conversion T) where
  open servers use {World}

  unfoldable pub set_as : (Bytes → Result (Command R)) → T → Action World (Unit {0})
  unfolding set
  set_as new = converted cnv λ octets. set servers cfg walk (new octets)

  unfoldable pub add_as : (Bytes → Result (Command R)) → T → Action World Bool
  unfolding add
  add_as new = converted cnv λ octets. add servers cfg walk (new octets)

  -- `replace`, `prepend` and `append`.
  unfoldable pub replace_as : (Bytes → Result (Command R)) → T → Action World Bool
  unfolding replace
  replace_as new = converted cnv λ octets. replace servers cfg walk (new octets)

  unfoldable pub cas_as : (Bytes → Options → Result (Command R)) → Options → T → Action World Bool
  unfolding cas
  cas_as new opts = converted cnv λ octets. cas servers cfg walk (new octets) opts
