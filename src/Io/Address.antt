-- ===== src/Io/Address.antt =====
-- src/io/connection.cc, `parse_address`: a server's address is `host:port`.
use mcache_client.Prelude.{
  ℕ, ◌≡◌, ◌≢◌, refl, ap, List, [], ◌∷◌, ◌++◌, arith, ◌==◌, if◌then◌else◌, All, Bytes, codes,
}
use mcache_client.Error.{IoErrorCode, Exception, Result, returns, throws, returns_injective}

abbrev onto_first : ℕ → List Bytes → List Bytes
onto_first c [] = (c ∷ []) ∷ []
onto_first c (part ∷ parts) = (c ∷ part) ∷ parts

-- `boost::split` at each colon, neighbouring colons kept apart: there is always a first part.
unfoldable pub split_colons : Bytes → List Bytes
split_colons [] = [] ∷ []
split_colons (c ∷ s) =
    let parts = split_colons s in if c == b':' then [] ∷ parts else onto_first c parts

abbrev invalid_address : Bytes → Exception
invalid_address addr =
    Exception.io_error IoErrorCode.argument (codes "invalid destination address: " ++ addr)

abbrev pub two_parts : Bytes → List Bytes → Result (Bytes × Bytes)
two_parts addr (host ∷ port ∷ []) = returns (host, port)
two_parts addr _ = throws (invalid_address addr)

unfoldable pub parse_address : Bytes → Result (Bytes × Bytes)
unfolding split_colons
parse_address addr = two_parts addr (split_colons addr)

abbrev pub NoColon : Bytes → Type 0
NoColon = All (λ c. c ≢ b':')

split_colons_plain : (port : Bytes) → NoColon port → split_colons port ≡ port ∷ []
unfolding split_colons
split_colons_plain [] h = refl
split_colons_plain (c ∷ s) h = ground (arith, split_colons_plain s h.1)

split_colons_two :
    (host port : Bytes)
    → NoColon host
    → NoColon port
    → split_colons (host ++ b':' ∷ port) ≡ host ∷ port ∷ []
unfolding split_colons
split_colons_two [] port h p = ap (◌∷◌ []) (split_colons_plain port p)
split_colons_two (c ∷ host) port h p = ground (arith, split_colons_two host port h.1 p)

-- An address with one colon is taken apart at it.
pub parse_address_pair :
    (host port : Bytes)
    → NoColon host
    → NoColon port
    → parse_address (host ++ b':' ∷ port) ≡ returns (host, port)
unfolding parse_address
parse_address_pair host port h p = rw (split_colons_two host port h p)

abbrev Joined : Bytes → List Bytes → Type 0
Joined addr (host ∷ []) = (addr ≡ host) × NoColon host
Joined addr (host ∷ port ∷ []) = (addr ≡ host ++ b':' ∷ port) × NoColon host × NoColon port
Joined addr [] = ⊥
Joined addr (host ∷ port ∷ more ∷ parts) = Unit {0}

Joined-step :
    (c : ℕ) (s : Bytes) (parts : List Bytes)
    → Joined s parts
    → Joined (c ∷ s) (if c == b':' then [] ∷ parts else onto_first c parts)
Joined-step c s [] j = absurd j
Joined-step c s (host ∷ []) j = ground arith
Joined-step c s (host ∷ port ∷ []) j = ground arith
Joined-step c s (host ∷ port ∷ more ∷ parts) j = ground arith

split_colons-Joined : (addr : Bytes) → Joined addr (split_colons addr)
unfolding split_colons
split_colons-Joined [] = (refl, tt)
split_colons-Joined (c ∷ s) = Joined-step c s (split_colons s) (split_colons-Joined s)

two_parts-Joined :
    (addr host port : Bytes) (parts : List Bytes)
    → Joined addr parts
    → two_parts addr parts ≡ returns (host, port)
    → (addr ≡ host ++ b':' ∷ port) × NoColon host × NoColon port
two_parts-Joined addr host port [] j e = absurd j
two_parts-Joined addr host port (a ∷ []) j e = cc
two_parts-Joined addr host port (a ∷ b ∷ []) j e =
    let same : a ≡ host = ap (λ q. q.0) (returns_injective e) in
    let same' : b ≡ port = ap (λ q. q.1) (returns_injective e) in rw (← same, ← same') j
two_parts-Joined addr host port (a ∷ b ∷ c ∷ parts) j e = cc

-- What `parse_address` accepts is a host and a port with one colon between them, and no other colon.
pub parse_address-returns :
    (addr host port : Bytes)
    → parse_address addr ≡ returns (host, port)
    → (addr ≡ host ++ b':' ∷ port) × NoColon host × NoColon port
unfolding parse_address
parse_address-returns addr host port e =
    two_parts-Joined addr host port (split_colons addr) (split_colons-Joined addr) e
