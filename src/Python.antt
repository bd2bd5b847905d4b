-- ===== src/Python.antt =====
-- src/python/mcache.cc: the Python module, a wrapper around the client with the binary protocol. The
-- type of a Python object is kept in the upper three bits of the flags.
pub mod Dicts
pub mod Operations
pub mod RoundTrip
pub mod Types
use Prim.Native.Nat.{bit_and, bit_or}
use mcache_client.Prelude.{
  ℕ, suc, ◌+◌, Bool, true, false, [], ◌∷◌, ◌==◌, if◌then◌else◌, Bytes, codes, decimal,
}
use mcache_client.Error.{ErrorCode, mc_error, Result, returns, throws, ◌>>=◌}
use mcache_client.Client.Operations.{Found}
use mcache_client.Proto.Options.{Options}

-- A Python int.
pub data ℤ : Type 0 where
  pos negsuc : ℕ → ℤ

-- What the tests of the wrapper tell apart: a str, with its octets in UTF-8, a float and an int.
pub data Base (F : Type 0) : Type 0 where
  text : Bytes → Base F
  float : F → Base F
  long : ℤ → Base F

-- A Python 3 object: a str, a float or an int itself; an instance of a class derived from one of them,
-- such as a bool, which passes the same test; `None`; or any other.
pub data Object (F O : Type 0) : Type 0 where
  exact : Base F → Object F O
  derived : Base F → O → Object F O
  nothing : Object F O
  other : O → Object F O

-- What the wrapper uses of Boost.Python, the pickle module and the C library: the conversions of a
-- `std::string` to an object and of an int to an `int64_t`, `snprintf` of a double with `%f`, `strtold`
-- with the cast to a double, `atoll`, and `pickle.dumps` and `loads`.
pub record Interpreter (F O : Type 0) : Type 0 where
  pub decode : Bytes → Result (Object F O)
  pub int64 : ℤ → Result ℤ
  pub print_f : F → Bytes
  pub strtold : Bytes → F
  pub atoll : Bytes → ℤ
  pub dumps : Object F O → Result Bytes
  pub loads : Bytes → Result (Object F O)

-- The marks of the types.
abbrev pub string_mark : ℕ
string_mark = 0x0000_0000

abbrev pub pickled_mark : ℕ
pickled_mark = 0x2000_0000

abbrev pub double_mark : ℕ
double_mark = 0x4000_0000

abbrev pub long_mark : ℕ
long_mark = 0x8000_0000

abbrev pub mask : ℕ
mask = 0xE000_0000

-- `~MASK`, in 32 bits.
abbrev pub rest_mask : ℕ
rest_mask = 0x1FFF_FFFF

-- `aux::cnv<int64_t>::as`, which writes with `%ld`.
unfoldable pub signed_decimal : ℤ → Bytes
signed_decimal (ℤ.pos n) = decimal n
signed_decimal (ℤ.negsuc n) = b'-' ∷ decimal (suc n)

-- `opts.flags |= mark`.
abbrev pub mark_with : ℕ → Options → Options
mark_with mark opts = record opts { flags = bit_or opts.flags mark }

-- The dict that `get` returns.
pub record Entry (F O : Type 0) : Type 0 where
  pub cas : ℕ
  pub flags : ℕ
  pub held : Object F O

unfoldable pub not_found : {F O : Type 0} → Object F O → Entry F O
not_found default = record { cas = 0; flags = 0; held = default }

module _ {F O : Type 0} (py : Interpreter F O) where
  abbrev pub typed_base : Base F → Options → Result (Bytes × Options)
  typed_base (Base.text s) opts = returns (s, opts)
  typed_base (Base.float x) opts = returns (py.print_f x, mark_with double_mark opts)
  typed_base (Base.long z) opts = do
    n ← py.int64 z
    returns (signed_decimal n, mark_with long_mark opts)

  abbrev pub typed : Object F O → Options → Result (Bytes × Options)
  typed (Object.exact base) opts = typed_base base opts
  typed (Object.derived base class) opts = typed_base base opts
  typed object opts = do octets ← py.dumps object; returns (octets, mark_with pickled_mark opts)

  -- `to_string`: the octets, and the options as it leaves them.
  unfoldable pub to_string : Object F O → Options → Result (Bytes × Options)
  to_string object opts =
      if bit_and opts.flags mask == 0
      then typed object opts
      else throws (
          mc_error ErrorCode.bad_argument
            (codes "three upper bits of flags are used by mcache python wrapper"))

  abbrev pub read_typed : ℕ → Bytes → Result (Object F O)
  read_typed mark octets =
      if mark == pickled_mark
      then py.loads octets
      else if mark == double_mark
      then returns (Object.exact (Base.float (py.strtold octets)))
      else if mark == long_mark
      then returns (Object.exact (Base.long (py.atoll octets)))
      else py.decode octets

  -- `data_from_string`.
  unfoldable pub data_from_string : Bytes → ℕ → Result (Object F O)
  data_from_string octets flags = read_typed (bit_and flags mask) octets

  -- `from_string`.
  unfoldable pub from_string : Found → Object F O → Result (Entry F O)
  unfolding data_from_string not_found
  from_string result default =
      if result.found
      then (do
        object ← data_from_string result.text result.flags
        returns
            (record { cas = result.cas; flags = bit_and result.flags rest_mask; held = object }))
      else returns (not_found default)
