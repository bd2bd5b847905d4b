-- ===== src/Proto/Bin/Framing/Octets.antt =====
-- src/proto/binary.cc: what a storage command writes is a string of octets, and how long it is.
use mcache_client.Prelude.{
  ℕ, zero, suc, ◌+◌, ◌-◌, ◌%◌, ◌/◌, ◌^◌, ◌≤◌, ◌<◌, ◌≡◌, sym, ap, subst, ◌∙◌, Bool, true, false, [],
  ◌∷◌, ◌++◌, if◌then◌else◌, arith, Bytes, be, length, length-append, All, All-append,
}
use mcache_client.Error.{returns, returns_injective}
use mcache_client.Proto.Options.{Options}
use mcache_client.Proto.Zlib.{ZlibLibrary}
use mcache_client.Proto.Bin.Header.{Header, header_bytes}
use mcache_client.Proto.Bin.Header.RoundTrip.{length-header_bytes}
use mcache_client.Proto.Bin.Commands.{
  StorageCommand, request_bytes, storage_command, serialize_storage,
}
use mcache_client.Proto.Bin.Framing.Keyed.{checked}
use mcache_client.Proto.Bin.Framing.Storage.{
  sent_value, storage_extras, storage_command-value, built, length-storage_extras,
}

abbrev pub IsOctet : ℕ → Type 0
IsOctet c = c < 256

be-All : (k x : ℕ) → All IsOctet (be k x)
unfolding be
be-All zero x = tt
be-All (suc k) x =
    All-append IsOctet (be k (x / 256)) (x % 256 ∷ []) (be-All k (x / 256)) (omega arith, tt)

header_bytes-All : (h : Header) → All IsOctet (header_bytes h)
unfolding header_bytes
header_bytes-All h =
    let last =
      All-append IsOctet (be 4 h.opaque) (be 8 h.cas) (be-All 4 h.opaque) (be-All 8 h.cas) in
    let lengths = All-append IsOctet (be 4 h.body_len) _ (be-All 4 h.body_len) last in
    let status = All-append IsOctet (be 2 h.status) _ (be-All 2 h.status) lengths in
    (
      omega arith,
      (
        omega arith,
        All-append IsOctet (be 2 h.key_len) _ (be-All 2 h.key_len)
            (omega arith, (omega arith, status)),
      ),
    )

storage_extras-All : (b : Bool) (opts : Options) → All IsOctet (storage_extras b opts)
storage_extras-All true opts =
    All-append IsOctet (be 4 opts.flags) (be 4 opts.expiration) (be-All 4 opts.flags)
      (be-All 4 opts.expiration)
storage_extras-All false opts = tt

-- The bounds of a packet with this value.
abbrev pub Bounded : StorageCommand → Bytes → Bytes → Type 0
Bounded c value packet =
    All IsOctet packet
    × (length packet ≤ length value + 282)
    × (c.lengths.body_len ≡ (length packet - 24) % 2 ^ 32)

built-Bounded :
    (b : Bool) (key value packet : Bytes) (opts : Options) (code : ℕ)
    → serialize_storage (built b key value opts) code ≡ returns packet
    → All IsOctet key
    → All IsOctet value
    → Bounded (built b key value opts) value packet
unfolding serialize_storage request_bytes
built-Bounded b key value packet opts code e keys values =
    let c = built b key value opts in
    let extras = storage_extras b opts in
    let head = request_bytes c.lengths code opts.cas in
    let body = extras ++ (key ++ value) in
    let (short, shape) = checked key (head ++ body) packet e in
    let n : ℕ = if b then 8 else 0 in
    let extra : length extras ≡ n = length-storage_extras b opts in
    let few : n ≤ 8 = ground arith in
    let begins : length head ≡ 24 = length-header_bytes _ in
    let total : length (head ++ body) ≡ 24 + n + length key + length value = omega (
      arith,
      length-append head body,
      length-append extras (key ++ value),
      length-append key value,
    ) in
    let all : All IsOctet (head ++ body) = All-append IsOctet head body (header_bytes-All _) (
      All-append IsOctet extras (key ++ value) (storage_extras-All b opts)
        (All-append IsOctet key value keys values)) in
    rw shape (all, omega arith, omega arith)

module _ (zlib : ZlibLibrary) (b : Bool) (key input : Bytes) (opts : Options) where
  -- A storage packet consists of octets if the key and the value that is sent do; it is no longer
  -- than that value and 282 octets, the header, the longest extras and the longest key; and the body's
  -- length in its header is its length without the header, in 32 bits: so it is right for every value
  -- that is shorter than 4 GiB by 258 octets, and wraps around for a longer one.
  pub serialize_storage-Bounded :
      (c : StorageCommand) (code : ℕ) (value packet : Bytes)
      → storage_command zlib b key input opts ≡ returns c
      → sent_value zlib input opts ≡ returns value
      → serialize_storage c code ≡ returns packet
      → All IsOctet key
      → All IsOctet value
      → Bounded c value packet
  unfolding serialize_storage
  serialize_storage-Bounded c code value packet made sent e keys values =
      let (value', sent', shape) = storage_command-value zlib b key input opts c made in
      let same : value' ≡ value = returns_injective (sym sent' ∙ sent) in
      let shape' : c ≡ built b key value opts = shape ∙ ap (λ v. built b key v opts) same in
      subst (λ k. Bounded k value packet) (sym shape')
        (built-Bounded b key value packet opts code
          (ap (λ k. serialize_storage k code) (sym shape') ∙ e) keys values)
