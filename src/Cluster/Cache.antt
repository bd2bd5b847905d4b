-- ===== src/Cluster/Cache.antt =====
-- include/mcache/client.h: what a caller may expect of the client as a cache, and the client's
-- operations that promise it.
pub mod Coherence
pub mod Fetch
pub mod Held
pub mod Loop
pub mod Put
pub mod Refinement
pub mod Remove
pub mod Server
pub mod Steps
use mcache_client.Prelude.{
  ℕ, ◌≡◌, ◌≢◌, refl, ap, sym, ◌∙◌, Bool, true, false, ◌&&◌, List, [], ◌∷◌, Option, none, some, ◌==◌,
  if◌then◌else◌, Bool-cases, inl, inr, arith, Bytes,
}
use mcache_client.Error.{Result, returns}
use mcache_client.Client as Client
use mcache_client.Client.{Servers}
use mcache_client.Client.Operations.{Found, miss, set, get, del}
use mcache_client.Proto.Command.{Action, ◌>>=◌, lift}
use mcache_client.Proto.Options.{Options}
use mcache_client.Proto.Response.{single_body_response, single_retrieval_response}
use mcache_client.Proto.Zlib.{ZlibLibrary}
use mcache_client.Proto.Bin.Api.{get_command, set_command, delete_command}

unfoldable pub same_bytes : Bytes → Bytes → Bool
same_bytes [] [] = true
same_bytes (a ∷ s) (b ∷ t) = let rest = same_bytes s t in (a == b) && rest
same_bytes _ _ = false

pub same_bytes_refl : (s : Bytes) → same_bytes s s ≡ true
unfolding same_bytes
same_bytes_refl [] = refl
same_bytes_refl (a ∷ s) = ground (arith, same_bytes_refl s)

pub same_bytes_eq : (s t : Bytes) → same_bytes s t ≡ true → s ≡ t
unfolding same_bytes
same_bytes_eq [] [] e = refl
same_bytes_eq [] (b ∷ t) e = cc
same_bytes_eq (a ∷ s) [] e = cc
same_bytes_eq (a ∷ s) (b ∷ t) e = ground (arith, same_bytes_eq s t)

-- What was last set under each key, with its flags.
abbrev pub View : Type 0
View = Bytes → Option (Bytes × ℕ)

abbrev pub empty : View
empty key = none

unfoldable pub written : View → Bytes → Option (Bytes × ℕ) → View
written view key entry other = if same_bytes key other then entry else view other

pub written_self :
    (view : View) (key : Bytes) (entry : Option (Bytes × ℕ)) → written view key entry key ≡ entry
unfolding written
written_self view key entry = rw (same_bytes_refl key) refl

pub written_other :
    (view : View) (key other : Bytes) (entry : Option (Bytes × ℕ))
    → key ≢ other
    → written view key entry other ≡ view other
unfolding written
written_other view key other entry ne = elim (Bool-cases (same_bytes key other)) [
  | inl same ↦ absurd (ne (same_bytes_eq key other same))
  | inr differ ↦ rw differ refl
]

-- What a caller asks for, and what he is told.
pub data Request : Type 0 where
  put : Bytes → Bytes → Options → Request
  fetch : Bytes → Request
  remove : Bytes → Request

pub data Reply : Type 0 where
  stored : Reply
  got : Found → Reply
  removed : Bool → Reply

abbrev pub hit : Bytes → ℕ → Found
hit value flags = record { found = true; text = value; flags = flags; cas = 0 }

-- A cache: a fetch finds what was last set, or nothing, for a cache may lose what it holds; a removal
-- is told to have removed something only if something was set.
pub data Allows (view : View) : Request → Reply → View → Type 0 where
  puts :
      (key value : Bytes) (opts : Options)
      → Allows view
          (Request.put key value opts)
          Reply.stored
          (written view key (some (value, opts.flags)))
  hits :
      (key value : Bytes) (flags : ℕ)
      → view key ≡ some (value, flags)
      → Allows view (Request.fetch key) (Reply.got (hit value flags)) view
  misses : (key : Bytes) → Allows view (Request.fetch key) (Reply.got miss) view
  removes :
      (key : Bytes) (entry : Bytes × ℕ)
      → view key ≡ some entry
      → Allows view (Request.remove key) (Reply.removed true) (written view key none)
  lacks :
      (key : Bytes) → Allows view (Request.remove key) (Reply.removed false) (written view key none)

pub data Runs : View → List Request → List Reply → View → Type 0 where
  ends : {view : View} → Runs view [] [] view
  goes_on :
      {request : Request} {reply : Reply} {requests : List Request} {replies : List Reply}
      {view next last : View}
      → Allows view request reply next
      → Runs next requests replies last
      → Runs view (request ∷ requests) (reply ∷ replies) last

-- The requests through the client, one behind the other.
module _ (servers : Servers) (conf : Client.Config) (walk : Bytes → List ℕ)
    (zlib : ZlibLibrary) where
  open servers use {World}

  unfoldable pub perform : Request → Action World Reply
  unfolding set get del set_command get_command delete_command
  perform (Request.put key value opts) = do
    done ← set servers conf walk (set_command zlib key value opts)
    lift (returns Reply.stored)
  perform (Request.fetch key) = do
    found ← get servers conf walk (get_command zlib key)
    lift (returns (Reply.got found))
  perform (Request.remove key) = do
    done ← del servers conf walk (returns (delete_command key))
    lift (returns (Reply.removed done))

  unfoldable pub perform_all : List Request → Action World (List Reply)
  unfolding perform
  perform_all [] = lift (returns [])
  perform_all (request ∷ requests) = do
    reply ← perform request
    replies ← perform_all requests
    lift (returns (reply ∷ replies))
