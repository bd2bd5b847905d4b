-- ===== src/Proto/Key.antt =====
-- src/proto/aux.h: which keys may be sent.
use mcache_client.Prelude.{
  ℕ, ◌≤◌, ◌<◌, ◌≡◌, ◌≢◌, refl, ◌↔◌, Bool, false, [], ◌∷◌, arith, ◌||◌, ◌&&◌, ltb, leb, ◌==◌,
  if◌then◌else◌, any, All, length, Bytes, codes,
}
use mcache_client.Error.{ErrorCode, mc_error, Result, returns, throws}

-- `isspace` and `iscntrl` of the "C" locale.
unfoldable pub is_space : ℕ → Bool
is_space c = c == 32 || (leb 9 c && leb c 13)

unfoldable pub is_cntrl : ℕ → Bool
is_cntrl c = leb c 31 || c == 127

unfoldable pub is_invalid : ℕ → Bool
unfolding is_space is_cntrl
is_invalid c = is_space c || is_cntrl c

-- `check_key`.
unfoldable pub check_key : Bytes → Result (Unit {0})
check_key key =
    if ltb 250 (length key)
    then throws (mc_error ErrorCode.bad_argument (codes "key is too long"))
    else if any is_invalid key
    then throws (mc_error ErrorCode.bad_argument (codes "key contains invalid chars"))
    else returns tt

-- An octet that a key may hold: printable ASCII but the space, or above ASCII.
abbrev pub IsKeyOctet : ℕ → Type 0
IsKeyOctet c = (32 < c) × (c ≢ 127)

is_invalid_lem : (c : ℕ) → is_invalid c ≡ false → IsKeyOctet c
unfolding is_invalid
is_invalid_lem c h = ground arith

valid_octet : (c : ℕ) → IsKeyOctet c → is_invalid c ≡ false
unfolding is_invalid
valid_octet c h = ground arith

any_invalid : (key : Bytes) → any is_invalid key ≡ false → All IsKeyOctet key
any_invalid [] e = tt
any_invalid (c ∷ key) e = (is_invalid_lem c (ground arith), any_invalid key (ground arith))

All-valid : (key : Bytes) → All IsKeyOctet key → any is_invalid key ≡ false
All-valid [] a = refl
All-valid (c ∷ key) a = ground (arith, valid_octet c a.0, All-valid key a.1)

-- A key passes exactly if it has at most 250 octets and each of them is printable or above ASCII; so
-- no key that is sent holds a space, a tab, a line end or a zero octet. The empty key passes.
pub check_key-returns :
    (key : Bytes) → (check_key key ≡ returns tt) ↔ ((length key ≤ 250) × All IsKeyOctet key)
unfolding check_key
check_key-returns key = (
  (λ e. (ground arith, any_invalid key (ground arith))),
  (λ v. ground (arith, All-valid key v.1)),
)
