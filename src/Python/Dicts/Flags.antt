-- ===== src/Python/Dicts/Flags.antt =====
-- src/python/mcache.cc: what becomes of the flags that a caller gives in a dict.
use Prim.Native.Nat.{bit_and, bit_or}
use mcache_client.Prelude.{
  ℕ, ◌+◌, ◌≡◌, refl, Bool, true, false, ◌==◌, if◌then◌else◌, arith, bit_or-flag,
}
use mcache_client.Error.{returns, throws}
use mcache_client.Proto.Options.{Options, compress_flag, is_compressed}
use mcache_client.Python.Dicts.{CallDict, set_from, wants_compression, made, refusal, construct}

off : (flags : ℕ) → is_compressed flags ≡ false → bit_and flags compress_flag ≡ 0
unfolding is_compressed
off flags e = ground arith

on : (flags : ℕ) → is_compressed flags ≡ true → (bit_and flags compress_flag == 0) ≡ false
unfolding is_compressed
on flags e = ground arith

flagged :
    (flags : ℕ) (wants : Bool)
    → bit_and flags compress_flag ≡ 0
    → let flags' = if wants then bit_or flags compress_flag else flags in
      (flags' ≡ flags + (if wants then 65536 else 0)) × (is_compressed flags' ≡ wants)
unfolding is_compressed
flagged flags true e = let (same, seen) = bit_or-flag flags e in (same, rw seen refl)
flagged flags false e = (omega arith, rw e refl)

-- A dict with the client's own flag for compression is refused, whether or not it asks for
-- compression. Any other makes options that are compressed exactly if it asks for it, and whose flags
-- are the caller's, with nothing but that flag, 65536, on top of them.
pub construct-is_compressed :
    (dict : CallDict)
    → let flags = set_from 0 dict.flags in
      let wants = wants_compression dict in
      (is_compressed flags ≡ true → construct dict ≡ throws refusal)
      × (is_compressed flags ≡ false
          → (opts : Options) × (construct dict ≡ returns opts)
            × (is_compressed opts.flags ≡ wants)
            × (opts.flags ≡ flags + (if wants then 65536 else 0)))
unfolding construct
construct-is_compressed dict =
    let flags = set_from 0 dict.flags in
    (
      (λ e. rw (on flags e) refl),
      (λ e.
          let zero' = off flags e in
          let (kept, seen) = flagged flags (wants_compression dict) zero' in
          (made dict flags, rw zero' refl, seen, kept)),
    )
