-- ===== src/Python/Operations.antt =====
-- src/python/mcache.cc: the methods of the wrapper, over the client's operations with the commands of
-- the binary protocol.
use mcache_client.Prelude.{ℕ, Bool, true, false, List, Bytes}
use mcache_client.Error.{out_of_servers, Result, returns, throws}
use mcache_client.Client as Client
use mcache_client.Client.{Servers}
use mcache_client.Client.Operations as Operations
use mcache_client.Client.Operations.{Found}
use mcache_client.Proto.Command.{Action, ◌>>=◌, lift}
use mcache_client.Proto.Options.{Options, default_options}
use mcache_client.Proto.Response.{single_body_response, single_retrieval_response}
use mcache_client.Proto.Zlib.{ZlibLibrary}
use mcache_client.Proto.Bin.Api.{
  get_command, set_command, add_command, replace_command, append_command, prepend_command,
  incr_command, decr_command, touch_by_command, delete_command,
}
use mcache_client.Python.{
  ℤ, Base, Object, Interpreter, Entry, long_mark, mark_with, not_found, to_string, from_string,
}

module _ {F O : Type 0} (py : Interpreter F O) (servers : Servers) (conf : Client.Config)
    (walk : Bytes → List ℕ) (zlib : ZlibLibrary) where
  open servers use {World}

  -- The object is converted first, and that may change the options; `call` goes on with both.
  abbrev pub stringed :
      {A : Type 0} → Object F O → Options → (Bytes → Options → Action World A) → Action World A
  stringed object opts call = lift (to_string py object opts) >>= λ sent. call sent.0 sent.1

  -- `seto`, and `set` without options.
  unfoldable pub seto : Bytes → Object F O → Options → Action World (Unit {0})
  unfolding to_string Operations.set set_command
  seto key object opts =
      stringed object opts
        λ octets opts'. Operations.set servers conf walk (set_command zlib key octets opts')

  unfoldable pub set : Bytes → Object F O → Action World (Unit {0})
  unfolding seto
  set key object = seto key object default_options

  unfoldable pub addo : Bytes → Object F O → Options → Action World Bool
  unfolding to_string Operations.add add_command
  addo key object opts =
      stringed object opts
        λ octets opts'. Operations.add servers conf walk (add_command zlib key octets opts')

  unfoldable pub add : Bytes → Object F O → Action World Bool
  unfolding addo
  add key object = addo key object default_options

  unfoldable pub replaceo : Bytes → Object F O → Options → Action World Bool
  unfolding to_string Operations.replace replace_command
  replaceo key object opts =
      stringed object opts
        λ octets opts'. Operations.replace servers conf walk (replace_command zlib key octets opts')

  unfoldable pub replace : Bytes → Object F O → Action World Bool
  unfolding replaceo
  replace key object = replaceo key object default_options

  unfoldable pub prependo : Bytes → Object F O → Options → Action World Bool
  unfolding to_string Operations.replace prepend_command
  prependo key object opts =
      stringed object opts
        λ octets opts'. Operations.replace servers conf walk (prepend_command zlib key octets opts')

  unfoldable pub prepend : Bytes → Object F O → Action World Bool
  unfolding prependo
  prepend key object = prependo key object default_options

  unfoldable pub appendo : Bytes → Object F O → Options → Action World Bool
  unfolding to_string Operations.replace append_command
  appendo key object opts =
      stringed object opts
        λ octets opts'. Operations.replace servers conf walk (append_command zlib key octets opts')

  unfoldable pub append : Bytes → Object F O → Action World Bool
  unfolding appendo
  append key object = appendo key object default_options

  unfoldable pub cas : Bytes → Object F O → Options → Action World Bool
  unfolding to_string Operations.cas set_command
  cas key object opts =
      stringed object opts
        λ octets opts'. Operations.cas servers conf walk (set_command zlib key octets) opts'

  unfoldable pub get : Bytes → Action World (Entry F O)
  unfolding Operations.get get_command from_string
  get key = do
    found ← Operations.get servers conf walk (get_command zlib key)
    lift (from_string py found Object.nothing)

  unfoldable pub gets : Bytes → Action World (Entry F O)
  unfolding Operations.gets get_command from_string
  gets key = do
    found ← Operations.gets servers conf walk (get_command zlib key)
    lift (from_string py found Object.nothing)

  -- The `catch`: out of servers, the caller gets his default.
  abbrev pub or_default : Object F O → World × Result (Entry F O) → World × Result (Entry F O)
  or_default default (w, throws out_of_servers) = (w, returns (not_found default))
  or_default default (w, r) = (w, r)

  unfoldable pub getd : Bytes → Object F O → Action World (Entry F O)
  unfolding Operations.get get_command from_string not_found
  getd key default w = or_default default (
      (do
        found ← Operations.get servers conf walk (get_command zlib key)
        lift (from_string py found default))
        w)

  unfoldable pub getsd : Bytes → Object F O → Action World (Entry F O)
  unfolding Operations.gets get_command from_string not_found
  getsd key default w = or_default default (
      (do
        found ← Operations.gets servers conf walk (get_command zlib key)
        lift (from_string py found default))
        w)

  -- The number of a counter, or `None`.
  abbrev pub counted : ℕ × Bool → Object F O
  counted (n, true) = Object.exact (Base.long (ℤ.pos n))
  counted (n, false) = Object.nothing

  -- `atoll` is the client's, which reads a counter.
  module _ (atoll : Bytes → ℕ) where
    unfoldable pub incrio : Bytes → ℕ → Options → Action World (Object F O)
    unfolding Operations.incr incr_command
    incrio key inc opts = do
      pair ←
          Operations.incr servers conf walk atoll
            (returns (incr_command key inc (mark_with long_mark opts)))
      lift (returns (counted pair))

    unfoldable pub incri : Bytes → ℕ → Action World (Object F O)
    unfolding incrio
    incri key inc = incrio key inc default_options

    unfoldable pub incr : Bytes → Action World (Object F O)
    unfolding incrio
    incr key = incrio key 1 default_options

    unfoldable pub decrio : Bytes → ℕ → Options → Action World (Object F O)
    unfolding Operations.incr decr_command
    decrio key dec opts = do
      pair ←
          Operations.incr servers conf walk atoll
            (returns (decr_command key dec (mark_with long_mark opts)))
      lift (returns (counted pair))

    unfoldable pub decri : Bytes → ℕ → Action World (Object F O)
    unfolding decrio
    decri key dec = decrio key dec default_options

    unfoldable pub decr : Bytes → Action World (Object F O)
    unfolding decrio
    decr key = decrio key 1 default_options

  unfoldable pub touch : Bytes → ℕ → Action World Bool
  unfolding Operations.touch touch_by_command
  touch key exp = Operations.touch servers conf walk (returns (touch_by_command key exp))

  unfoldable pub del : Bytes → Action World Bool
  unfolding Operations.del delete_command
  del key = Operations.del servers conf walk (returns (delete_command key))
