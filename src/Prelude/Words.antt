-- ===== src/Prelude/Words.antt =====
-- Octets, texts as lists of octets, and fixed-width big-endian words.
use Prim.Native.Char.{code}
use Prim.Native.String.{String}
use Prim.Native.Nat.{ℕ, zero, suc, ◌+◌, ◌*◌, ◌/◌, ◌%◌, ◌^◌, ◌<◌}
use mathlib.Core.Path.{◌≡◌, refl, ◌∙◌}
use mathlib.Core.Bool.{Bool, true, false, ◌&&◌}
use mathlib.Core.List.{List, [], ◌∷◌, ◌++◌}
use native.Mathlib.Nat.{pow-suc}
use native.Mathlib.Omega.{arith}
use mcache_client.Prelude.Lists.{length, length-append}
use mcache_client.Prelude.Tests.{◌==◌}

-- The contents of a `std::string`.
abbrev pub Bytes : Type 0
Bytes = List ℕ

-- The octets of an ASCII literal. It stays shut in proofs, where a message is opaque.
unfoldable pub codes : String → Bytes
codes String.[] = []
codes (String.◌∷◌ c s) = code c ∷ codes s

-- `boost::starts_with`.
unfoldable pub starts_with : Bytes → Bytes → Bool
starts_with s [] = true
starts_with [] (p ∷ ps) = false
starts_with (c ∷ s) (p ∷ ps) = c == p && starts_with s ps

-- The low `k` octets of a number, most significant first: `htons`, `htonl` and `htobe64` followed
-- by a copy of the object's bytes.
unfoldable pub be : ℕ → ℕ → Bytes
be zero x = []
be (suc k) x = be k (x / 256) ++ x % 256 ∷ []

from_be_on : ℕ → Bytes → ℕ
from_be_on acc [] = acc
from_be_on acc (b ∷ bs) = from_be_on (acc * 256 + b) bs

-- The number that octets stand for: `ntohs`, `ntohl`, `be64toh` of the object copied from them.
unfoldable pub from_be : Bytes → ℕ
unfolding from_be_on
from_be = from_be_on 0

pub length-be : (k x : ℕ) → length (be k x) ≡ k
unfolding be
length-be zero x = refl
length-be (suc k) x =
    omega (arith, length-append (be k (x / 256)) (x % 256 ∷ []), length-be k (x / 256))

from_be_on-concat :
    (acc : ℕ) (xs : Bytes) (b : ℕ) → from_be_on acc (xs ++ b ∷ []) ≡ from_be_on acc xs * 256 + b
unfolding from_be_on
from_be_on-concat acc [] b = refl
from_be_on-concat acc (x ∷ xs) b = from_be_on-concat (acc * 256 + x) xs b

quotient_bound : (k x : ℕ) → x < 256 ^ suc k → x / 256 < 256 ^ k
quotient_bound k x h = omega (arith, pow-suc 256 k)

-- A number that fits in `k` octets survives the two conversions.
pub from_be-be : (k x : ℕ) → x < 256 ^ k → from_be (be k x) ≡ x
unfolding from_be be
from_be-be zero x h = omega arith
from_be-be (suc k) x h =
    from_be_on-concat 0 (be k (x / 256)) (x % 256)
    ∙ omega (arith, from_be-be k (x / 256) (quotient_bound k x h))
