-- ===== src/Proto/Command.antt =====
-- include/mcache/proto/parser.h: one exchange over a connection, and what it uses of a command and of
-- a connection.
pub mod Steps
use mcache_client.Prelude.{ℕ, ◌≡◌, refl, ap, ◌==◌, if◌then◌else◌, Bytes}
use mcache_client.Error.{Exception, Result, returns, throws}
use mcache_client.Proto.Response.{IsResponse}

-- Where a response header ends: behind these octets (text), or after so many of them (binary).
pub data Delimiter : Type 0 where
  behind : Bytes → Delimiter
  after : ℕ → Delimiter

-- A command of either protocol. It need not have a key (`flush_all`).
pub record Command (R : Type 0) : Type 0 where
  pub key : Bytes
  pub serialize : Result Bytes
  pub header_delimiter : Delimiter
  pub deserialize_header : Bytes → Result R

-- A connection to a server: each method may throw, and changes the connection.
pub record Connection (C : Type 0) : Type 0 where
  pub write : Bytes → C → C × Result (Unit {0})
  pub read_until : Bytes → C → C × Result Bytes
  pub read : ℕ → C → C × Result Bytes

-- A step on a connection, and one step after another.
abbrev pub Action : Type 0 → Type 0 → Type 0
Action C A = C → C × Result A

infixl 5 ◌>>=◌ ◌>>◌
abbrev pub ◌>>=◌ : {C A B : Type 0} → Action C A → (A → Action C B) → Action C B
◌>>=◌ m f c = let (c', r) = m c in elim r [ returns a ↦ f a c' | throws e ↦ (c', throws e) ]

abbrev pub ◌>>◌ : {C A B : Type 0} → Action C A → Action C B → Action C B
m >> k = m >>= λ _. k

abbrev pub lift : {C A : Type 0} → Result A → Action C A
lift r c = (c, r)

-- The inversion of a block that returns.
pub >>=-returns :
    {C A B : Type 0} (q : C × Result A) (f : A → Action C B) {b : B}
    → (((λ (c : C). q) >>= f) q.0).1 ≡ returns b
    → (a : A) × (q.1 ≡ returns a) × ((f a q.0).1 ≡ returns b)
>>=-returns (c, returns a) f e = (a, refl, e)
>>=-returns (c, throws x) f e = cc

-- And the step on from what returned.
pub >>=-of-returns :
    {C A B : Type 0} (m : Action C A) (f : A → Action C B) (c : C) {a : A}
    → (m c).1 ≡ returns a
    → (m >>= f) c ≡ f a (m c).0
>>=-of-returns {A} m f c e = ap (λ (r : Result A). ((λ _. ((m c).0, r)) >>= f) c) e

-- A step that throws is the last.
pub >>=-of-throws :
    {C A B : Type 0} (m : Action C A) (f : A → Action C B) (c : C) {x : Exception}
    → (m c).1 ≡ throws x
    → (m >>= f) c ≡ ((m c).0, throws x)
>>=-of-throws {A} m f c e = ap (λ (r : Result A). ((λ _. ((m c).0, r)) >>= f) c) e

module _ {C : Type 0} (conn : Connection C) where
  unfoldable pub read_header : Delimiter → Action C Bytes
  read_header (behind octets) = conn.read_until octets
  read_header (after n) = conn.read n

  module _ {R : Type 0} ⦃i : IsResponse R⦄ where
    -- `deserialize_body`: a body is read only where one is expected.
    unfoldable pub deserialize_body : R → Action C R
    deserialize_body response =
        if i.expected_body_size response == 0
        then lift (returns response)
        else do body ← conn.read (i.expected_body_size response); lift (i.set_body response body)

    -- `deserialize_response`.
    unfoldable pub deserialize_response : Command R → Action C R
    unfolding read_header deserialize_body
    deserialize_response command = do
      header ← read_header command.header_delimiter
      response ← lift (command.deserialize_header header)
      deserialize_body response

    -- `send`.
    unfoldable pub send : Command R → Action C R
    unfolding deserialize_response
    send command = do
      request ← lift command.serialize
      conn.write request
      deserialize_response command
