-- ===== src/Tests/Python.antt =====
-- src/python/mcache.cc: the wrapper over the two servers that keep what is set.
use Prim.Native.Nat.{bit_and}
use mcache_client.Prelude.{
  ℕ, ◌-◌, ◌^◌, ◌<◌, ◌≡◌, ◌≢◌, refl, true, false, [], ◌∷◌, none, some, arith, Bytes, from_digits,
  decimal, digits, ◌==◌, if◌then◌else◌,
}
use mcache_client.Error.{out_of_servers, Result, returns, throws}
use mcache_client.Client as Client
use mcache_client.Client.Operations as Operations
use mcache_client.Client.Operations.{Found}
use mcache_client.Cluster.RoundTrip.{Storable, set-get}
use mcache_client.Proto.Key.{check_key, is_invalid}
use mcache_client.Proto.Options.{Options, is_compressed}
use mcache_client.Proto.Response.{single_body_response, single_retrieval_response}
use mcache_client.Proto.Zlib.{compress, le32}
use mcache_client.Proto.Bin.Api.{get_command}
use mcache_client.Python.{
  ℤ, Base, Object, Interpreter, Entry, rest_mask, not_found, signed_decimal, to_string,
  data_from_string,
}
use mcache_client.Python.Dicts.{CallDict, set_from, refusal, construct}
use mcache_client.Python.Dicts.Flags.{construct-is_compressed}
use mcache_client.Python.Operations.{seto, get, getd}
use mcache_client.Python.RoundTrip.{StoresAndFinds, seto-get, getd-get}
use mcache_client.Python.Types.{returned, data_from_string-to_string}
use mcache_client.Server.Proxy as Proxy
use mcache_client.Tests.Cluster.{
  keeper, keeper_memcached, two, two_servers, from_second, second-IsUp, packed,
}
use mcache_client.Tests.Proto.{storing, storing-Inflates, short_key}

abbrev read_int : Bytes → ℤ
read_int [] = ℤ.pos 0
read_int (c ∷ rest) =
    if c == b'-' then ℤ.negsuc (from_digits 0 rest - 1) else ℤ.pos (from_digits 0 (c ∷ rest))

abbrev write_octet : Object ℕ ℕ → Result Bytes
write_octet (Object.other o) = returns (o ∷ [])
write_octet object = returns []

abbrev read_octet : Bytes → Result (Object ℕ ℕ)
read_octet [] = returns Object.nothing
read_octet (o ∷ rest) = returns (Object.other o)

-- Floats are small numbers here, and every other object is pickled to one octet.
abbrev snake : Interpreter ℕ ℕ
snake = record {
  decode = λ s. returns (Object.exact (Base.text s));
  int64 = λ z. returns z;
  print_f = decimal;
  strtold = from_digits 0;
  atoll = read_int;
  dumps = write_octet;
  loads = read_octet;
}

abbrev minus_seven : Object ℕ ℕ
minus_seven = Object.exact (Base.long (ℤ.negsuc 6))

-- -7 as an instance of a class derived from int.
abbrev odd_seven : Object ℕ ℕ
odd_seven = Object.derived (Base.long (ℤ.negsuc 6)) 0

abbrev sent_options : Options
sent_options = record { expiration = 0; flags = 0x8001_0000; cas = 0 }

odd_seven_sent : to_string snake odd_seven packed ≡ returns (45 ∷ 55 ∷ [], sent_options)
unfolding to_string signed_decimal decimal digits
odd_seven_sent = refl

odd_seven_plain : returned snake odd_seven ≡ minus_seven
unfolding returned
odd_seven_plain = refl

data_from_string-to_string_example :
    (data_from_string snake (45 ∷ 55 ∷ []) 0x8001_0000 ≡ returns (returned snake odd_seven))
    × (bit_and 0x8001_0000 rest_mask ≡ 65536)
    × (0x8001_0000 < 2 ^ 32)
    × (sent_options.expiration ≡ packed.expiration)
    × (sent_options.cas ≡ packed.cas)
data_from_string-to_string_example =
    data_from_string-to_string snake odd_seven (45 ∷ 55 ∷ []) packed sent_options (ground arith)
      odd_seven_sent (refl, unfold signed_decimal decimal digits from_digits in refl)

seven-Storable : Storable keeper_memcached.item_limit storing short_key (45 ∷ 55 ∷ []) sent_options
unfolding keeper_memcached
seven-Storable = record {
  sent = 2 ∷ 0 ∷ 0 ∷ 0 ∷ 45 ∷ 55 ∷ [];
  is_sent = unfold is_compressed compress le32 in refl;
  passes = unfold check_key is_invalid in refl;
  named = λ e. cc;
  no_cas = refl;
  flags_fit = ground arith;
  value_fits = ground arith;
  sent_fits = ground arith;
  has_room = ground arith;
}

seven_kept :
    StoresAndFinds snake two Client.default_config from_second storing short_key
      (45 ∷ 55 ∷ [])
      sent_options
      two_servers
seven_kept =
    let (stored, found, frame) =
      set-get keeper keeper_memcached 2 Proxy.default_config (λ n. n) Client.default_config
        from_second storing short_key (45 ∷ 55 ∷ []) sent_options 1 (0 ∷ 1 ∷ 0 ∷ []) two_servers
        seven-Storable [] storing-Inflates refl (ground arith) (ground arith) refl second-IsUp in
    (stored, found)

seto-get_example :
    let after =
      seto snake two Client.default_config from_second storing short_key odd_seven packed
        two_servers in
    (after.1 ≡ returns tt)
    × ((get snake two Client.default_config from_second storing short_key after.0).1
        ≡ returns (record { cas = 0; flags = 65536; held = returned snake odd_seven }))
seto-get_example =
    seto-get snake two Client.default_config from_second storing short_key (45 ∷ 55 ∷ []) odd_seven
      packed sent_options two_servers (ground arith) odd_seven_sent
      (refl, unfold signed_decimal decimal digits from_digits in refl) seven_kept

getd-get_example :
    let d =
      getd snake two Client.default_config from_second storing short_key minus_seven two_servers in
    let client =
      Operations.get two Client.default_config from_second
        (get_command storing short_key)
        two_servers in
    (d.1 ≢ throws out_of_servers)
    × (client.1 ≡ throws out_of_servers → d.1 ≡ returns (not_found minus_seven))
    × ((found : Found)
        → client.1 ≡ returns found
        → found.found ≡ false
        → d.1 ≡ returns (not_found minus_seven))
    × ((found : Found) (entry : Entry ℕ ℕ)
        → client.1 ≡ returns found
        → found.found ≡ true
        → (get snake two Client.default_config from_second storing short_key two_servers).1
          ≡ returns entry
        → d.1 ≡ returns entry)
getd-get_example =
    getd-get snake two Client.default_config from_second storing short_key minus_seven two_servers

abbrev dict : CallDict
dict = record {
  expiration = some 5;
  flags = some 3;
  cas = none;
  iters = none;
  initial = none;
  compress = some true;
}

construct-is_compressed_example :
    (is_compressed 3 ≡ true → construct dict ≡ throws refusal)
    × (is_compressed 3 ≡ false
        → (opts : Options) × (construct dict ≡ returns opts)
          × (is_compressed opts.flags ≡ true)
          × (opts.flags ≡ 65539))
unfolding set_from
construct-is_compressed_example = construct-is_compressed dict
