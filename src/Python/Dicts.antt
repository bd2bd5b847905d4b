-- ===== src/Python/Dicts.antt =====
-- src/python/mcache.cc: the dicts that a caller gives for options, of a call and of the client. An entry
-- stands for what Boost.Python extracts of it.
pub mod Flags
use Prim.Native.Nat.{bit_and, bit_or}
use mcache_client.Prelude.{ℕ, Bool, true, false, Option, none, some, ◌==◌, if◌then◌else◌, codes}
use mcache_client.Error.{ErrorCode, Exception, mc_error, Result, returns, throws}
use mcache_client.Client as Client
use mcache_client.Pool.ConsistentHashing as ConsistentHashing
use mcache_client.Proto.Options.{Options, compress_flag}
use mcache_client.Server.Proxy as Proxy

-- `set_from`, in its three versions: the entry if the dict has it.
unfoldable pub set_from : {A : Type 0} → A → Option A → A
set_from res none = res
set_from res (some entry) = entry

-- The entries for a call.
pub record CallDict : Type 0 where
  pub expiration : Option ℕ
  pub flags : Option ℕ
  pub cas : Option ℕ
  pub iters : Option ℕ
  pub initial : Option ℕ
  pub compress : Option Bool

-- The first of the three names that the dict has.
unfoldable pub union_entry : CallDict → ℕ
unfolding set_from
union_entry dict = elim dict.cas [
  | some n ↦ n
  | none ↦ elim dict.iters [ some n ↦ n | none ↦ set_from 0 dict.initial ]
]

abbrev pub wants_compression : CallDict → Bool
wants_compression dict = set_from false dict.compress

-- What is made of the entries, once the flags have passed.
abbrev pub made : CallDict → ℕ → Options
made dict flags = record {
  expiration = set_from 0 dict.expiration;
  flags = if wants_compression dict then bit_or flags compress_flag else flags;
  cas = union_entry dict;
}

abbrev pub refusal : Exception
refusal =
    mc_error ErrorCode.bad_argument
      (codes "some lower bits of upper uint16_t of the flags are used by mcache python wrapper")

-- `opts_from_python_dict::construct`.
unfoldable pub construct : CallDict → Result Options
unfolding set_from union_entry
construct dict =
    let flags = set_from 0 dict.flags in
    if bit_and flags compress_flag == 0 then returns (made dict flags) else throws refusal

-- The entries for a client.
pub record ClientDict : Type 0 where
  pub connect_timeout : Option ℕ
  pub read_timeout : Option ℕ
  pub write_timeout : Option ℕ
  pub restoration_fail_limit : Option ℕ
  pub restoration_interval : Option ℕ
  pub virtual_nodes : Option ℕ
  pub max_continues : Option ℕ
  pub h404_duration : Option ℕ

-- `io::opts_t::timeouts_t`, in milliseconds.
pub record Timeouts : Type 0 where
  pub connect : ℕ
  pub read : ℕ
  pub write : ℕ

abbrev pub default_timeouts : Timeouts
default_timeouts = record { connect = 500; read = 1000; write = 1000 }

-- What the wrapper's constructor configures the client with.
pub record Settings : Type 0 where
  pub timeouts : Timeouts
  pub scfg : Proxy.Config
  pub pcfg : ConsistentHashing.Config
  pub ccfg : Client.Config

unfoldable pub settings : ClientDict → Settings
unfolding set_from
settings dict = record {
  timeouts = record {
    connect = set_from default_timeouts.connect dict.connect_timeout;
    read = set_from default_timeouts.read dict.read_timeout;
    write = set_from default_timeouts.write dict.write_timeout;
  };
  scfg = record {
    fail_limit = set_from Proxy.default_config.fail_limit dict.restoration_fail_limit;
    restoration_interval =
        set_from Proxy.default_config.restoration_interval dict.restoration_interval;
  };
  pcfg = record {
    virtual_nodes = set_from ConsistentHashing.default_config.virtual_nodes dict.virtual_nodes;
  };
  ccfg = record {
    max_continues = set_from Client.default_config.max_continues dict.max_continues;
    h404_duration = set_from Client.default_config.h404_duration dict.h404_duration;
  };
}
