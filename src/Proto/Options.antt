-- ===== src/Proto/Options.antt =====
-- include/mcache/proto/opts.h: the options of storage commands.
use Prim.Native.Nat.{bit_and}
use mcache_client.Prelude.{ℕ, ◌==◌, Bool, not}

-- `opts_t`. The expiration is in seconds; a caller's negative duration is not modelled. The source
-- keeps `cas`, `initial` and `iters` in one union: they are one field under three names.
pub record Options : Type 0 where
  pub expiration : ℕ
  pub flags : ℕ
  pub cas : ℕ

abbrev pub default_options : Options
default_options = record { expiration = 0; flags = 0; cas = 0 }

abbrev pub initial : Options → ℕ
initial o = o.cas

abbrev pub iters : Options → ℕ
iters o = o.cas

abbrev pub compress_flag : ℕ
compress_flag = 0x0001_0000

-- `flags & opts_t::compress`, as a condition.
unfoldable pub is_compressed : ℕ → Bool
is_compressed flags = not (bit_and flags compress_flag == 0)
