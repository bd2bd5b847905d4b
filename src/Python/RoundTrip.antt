-- ===== src/Python/RoundTrip.antt =====
-- src/python/mcache.cc: what a caller of the wrapper gets back.
use Prim.Native.Nat.{bit_and}
use mcache_client.Prelude.{ℕ, ◌^◌, ◌<◌, ◌≡◌, ◌≢◌, refl, sym, ◌∙◌, ap, true, false, List, Bytes}
use mcache_client.Error.{out_of_servers, Result, returns, throws}
use mcache_client.Client as Client
use mcache_client.Client.{Servers}
use mcache_client.Client.Operations as Operations
use mcache_client.Client.Operations.{Found}
use mcache_client.Proto.Command.{Action, ◌>>=◌, lift, >>=-of-returns}
use mcache_client.Proto.Options.{Options}
use mcache_client.Proto.Response.{single_body_response, single_retrieval_response}
use mcache_client.Proto.Zlib.{ZlibLibrary}
use mcache_client.Proto.Bin.Api.{get_command, set_command}
use mcache_client.Python.{
  Object, Interpreter, Entry, rest_mask, not_found, to_string, data_from_string, from_string,
}
use mcache_client.Python.Operations.{or_default, seto, get, getd}
use mcache_client.Python.Types.{Keeps, returned, data_from_string-to_string}

module _ {F O : Type 0} (py : Interpreter F O) (servers : Servers) (conf : Client.Config)
    (walk : Bytes → List ℕ) (zlib : ZlibLibrary) where
  open servers use {World}

  -- The client stores these octets and a get behind it finds them with these flags.
  abbrev pub StoresAndFinds : Bytes → Bytes → Options → World → Type 0
  StoresAndFinds key octets opts w =
      let after = Operations.set servers conf walk (set_command zlib key octets opts) w in
      (after.1 ≡ returns tt)
      × ((Operations.get servers conf walk (get_command zlib key) after.0).1
          ≡ returns (record { found = true; text = octets; flags = opts.flags; cas = 0 }))

  abbrev stored_entry : Object F O → ℕ → Entry F O
  stored_entry object flags = record { cas = 0; flags = flags; held = object }

  entry_read :
      (object default : Object F O) (octets : Bytes) (flags flags' : ℕ)
      → data_from_string py octets flags' ≡ returns object
      → bit_and flags' rest_mask ≡ flags
      → from_string py (record { found = true; text = octets; flags = flags'; cas = 0 }) default
        ≡ returns (stored_entry object flags)
  unfolding from_string
  entry_read object default octets flags flags' e same = rw (e, same) refl

  -- What is set through the wrapper comes back from a get as `returned` says: a str, an int or an
  -- object that is pickled as it was, an instance of a class derived from str, float or int as the
  -- plain one, and a float by its six printed decimals; and the get shows the flags that the caller
  -- chose. Here the flags have 32 bits, `to_string` returns, Python and the C library read the str,
  -- the int or the pickle as they wrote it (`Keeps`), and the client under the wrapper gives back the
  -- octets and the flags that it is given (`StoresAndFinds`).
  pub seto-get :
      (key octets : Bytes) (object : Object F O) (opts opts' : Options) (w : World)
      → opts.flags < 2 ^ 32
      → to_string py object opts ≡ returns (octets, opts')
      → Keeps py object
      → StoresAndFinds key octets opts' w
      → let after = seto py servers conf walk zlib key object opts w in
        (after.1 ≡ returns tt)
        × ((get py servers conf walk zlib key after.0).1
            ≡ returns (record { cas = 0; flags = opts.flags; held = returned py object }))
  unfolding seto get
  seto-get key octets object opts opts' w small e keeps (stored, found) =
      let (read, rest, few, expiration, cas) =
        data_from_string-to_string py object octets opts opts' small e keeps in
      let sets = λ (sent : Bytes × Options).
        Operations.set servers conf walk (set_command zlib key sent.0 sent.1) in
      let first = >>=-of-returns (lift (to_string py object opts)) sets w e in
      let w' = (sets (octets, opts') w).0 in
      let second =
        >>=-of-returns (Operations.get servers conf walk (get_command zlib key))
          (λ found. lift (from_string py found Object.nothing)) w' found in
      rw first (
        stored,
        ap (λ q. q.1) second
            ∙ entry_read (returned py object) Object.nothing octets opts.flags opts'.flags read
                rest,
      )

  module _ (key : Bytes) (default : Object F O) (w : World) where
    -- What the client under the wrapper says.
    abbrev asked : World × Result Found
    asked = Operations.get servers conf walk (get_command zlib key) w

    or_default_safe :
        (q : World × Result (Entry F O))
        → (or_default py servers conf walk zlib default q).1 ≢ throws out_of_servers
    or_default_safe (w', throws out_of_servers) e = cc
    or_default_safe (w', throws x) e = cc
    or_default_safe (w', returns r) e = cc

    reading : Object F O → Found → Action World (Entry F O)
    reading object found = lift (from_string py found object)

    getd_found :
        (found : Found)
        → asked.1 ≡ returns found
        → getd py servers conf walk zlib key default w
          ≡ or_default py servers conf walk zlib default (asked.0, from_string py found default)
    unfolding getd reading
    getd_found found e = ap (or_default py servers conf walk zlib default) (
        >>=-of-returns (Operations.get servers conf walk (get_command zlib key)) (reading default) w
          e)

    getd_unserved :
        (q : World × Result Found)
        → q.1 ≡ throws out_of_servers
        → (or_default py servers conf walk zlib default
            (((λ (w' : World). q) >>= reading default) w)).1
          ≡ returns (not_found default)
    getd_unserved (w', throws out_of_servers) e = refl
    getd_unserved (w', throws x) e = absurd cc
    getd_unserved (w', returns r) e = absurd cc

    get_found :
        (found : Found)
        → asked.1 ≡ returns found
        → (get py servers conf walk zlib key w).1 ≡ from_string py found Object.nothing
    unfolding get reading
    get_found found e =
        ap (λ q. q.1)
          (>>=-of-returns (Operations.get servers conf walk (get_command zlib key))
            (reading Object.nothing) w e)

    found_same :
        (found : Found) (entry : Entry F O)
        → found.found ≡ true
        → from_string py found Object.nothing ≡ returns entry
        → from_string py found default ≡ returns entry
    unfolding from_string
    found_same found entry hit e = rw hit (rw hit at e)

    missing :
        (found : Found)
        → found.found ≡ false
        → from_string py found default ≡ returns (not_found default)
    unfolding from_string
    missing found miss = rw miss refl

    -- A get with a default never throws `out_of_servers_t`: where the client throws it, and where the
    -- key is not found, the caller gets his default; and where something is found and the get without a
    -- default returns it, the get with one returns the same.
    pub getd-get :
        let d = getd py servers conf walk zlib key default w in
        let client = Operations.get servers conf walk (get_command zlib key) w in
        (d.1 ≢ throws out_of_servers)
        × (client.1 ≡ throws out_of_servers → d.1 ≡ returns (not_found default))
        × ((found : Found)
            → client.1 ≡ returns found
            → found.found ≡ false
            → d.1 ≡ returns (not_found default))
        × ((found : Found) (entry : Entry F O)
            → client.1 ≡ returns found
            → found.found ≡ true
            → (get py servers conf walk zlib key w).1 ≡ returns entry
            → d.1 ≡ returns entry)
    unfolding getd reading
    getd-get = (
      or_default_safe _,
      (λ e. getd_unserved asked e),
      (λ found e miss. rw (getd_found found e, missing found miss) refl),
      (λ found entry e hit got.
          rw (getd_found found e, found_same found entry hit (sym (get_found found e) ∙ got)) refl),
    )
