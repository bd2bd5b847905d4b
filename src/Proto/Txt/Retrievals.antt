-- ===== src/Proto/Txt/Retrievals.antt =====
-- src/proto/txt.cc: what a server reads of a retrieval request, `<command name> <key>`, and where the lines that
-- announce a value end.
use mcache_client.Prelude.{
  ℕ, ◌≡◌, ◌≢◌, refl, sym, ◌∙◌, ap, false, [], ◌∷◌, ◌++◌, Option, none, some, Bytes, All, All-append,
  decimal, decimal-All, IsDigit, codes, append_assoc, arith,
}
use mcache_client.Error.{returns, >>=-eq-returns, returns_injective}
use mcache_client.Io.Search.{split_first, split_first_behind}
use mcache_client.Proto.Key.{check_key, check_key-returns, is_space, IsKeyOctet}
use mcache_client.Proto.Txt.Requests.{serialize_retrieve, line_end}
use mcache_client.Proto.Txt.Responses.{and_then}
use mcache_client.Proto.Txt.Streams.{read_word, read_word_first, read_word_between}
use mcache_client.Proto.Txt.Values.{key_octets, value_line}

unfoldable pub read_retrieval : Bytes → Option (Bytes × Bytes)
read_retrieval s =
    and_then (read_word s) none λ name s1. and_then (read_word s1) none λ key s2. some (name, key)

-- A server that reads the packet of a retrieval with a key that is not empty and a name without spaces
-- finds that name and that key.
pub read_retrieval-serialize_retrieve :
    (c n : ℕ) (key name packet : Bytes)
    → serialize_retrieve (c ∷ key) (n ∷ name) ≡ returns packet
    → All (λ d. is_space d ≡ false) (n ∷ name)
    → read_retrieval packet ≡ some (n ∷ name, c ∷ key)
unfolding serialize_retrieve read_retrieval
read_retrieval-serialize_retrieve c n key name packet e a =
    let (done, passed, same) = >>=-eq-returns (check_key (c ∷ key)) _ e in
    let octets = key_octets (c ∷ key) ((check_key-returns (c ∷ key)).0 passed).1 in
    rw
      (
        sym (returns_injective same),
        read_word_first n name (c ∷ key ++ line_end) a,
        read_word_between c key 13 (10 ∷ []) octets (unfold is_space in refl),
      )
      refl

-- The octets of such a line in front of its end.
abbrev pub value_words : Bytes → ℕ → ℕ → Bytes
value_words key flags bytes =
    codes "VALUE" ++ (b' ' ∷ (key ++ (b' ' ∷ (decimal flags ++ (b' ' ∷ decimal bytes)))))

pub value_line_words :
    (key : Bytes) (flags bytes : ℕ)
    → value_line key flags bytes none ≡ value_words key flags bytes ++ line_end
unfolding codes
value_line_words key flags bytes = sym (
    ap (λ t. codes "VALUE" ++ (b' ' ∷ t))
      (append_assoc key (b' ' ∷ (decimal flags ++ (b' ' ∷ decimal bytes))) line_end
        ∙ ap (λ t. key ++ (b' ' ∷ t))
            (append_assoc (decimal flags) (b' ' ∷ decimal bytes) line_end)))

abbrev IsInLine : ℕ → Type 0
IsInLine c = c ≢ 13

key-IsInLine : (key : Bytes) → All IsKeyOctet key → All IsInLine key
key-IsInLine [] a = tt
key-IsInLine (c ∷ key) a = ((λ e. omega (arith, a.0.0)), key-IsInLine key a.1)

digits-IsInLine : (s : Bytes) → All IsDigit s → All IsInLine s
digits-IsInLine [] a = tt
digits-IsInLine (c ∷ s) a = ((λ e. omega (arith, a.0.0)), digits-IsInLine s a.1)

value_words-IsInLine :
    (key : Bytes) (flags bytes : ℕ)
    → All IsKeyOctet key
    → All IsInLine (value_words key flags bytes)
unfolding codes
value_words-IsInLine key flags bytes a =
    let numbers : All IsInLine (decimal flags ++ (b' ' ∷ decimal bytes)) =
      All-append IsInLine (decimal flags) (b' ' ∷ decimal bytes)
        (digits-IsInLine (decimal flags) (decimal-All flags))
        ((λ e. omega arith), digits-IsInLine (decimal bytes) (decimal-All bytes)) in
    let words : All IsInLine (key ++ (b' ' ∷ (decimal flags ++ (b' ' ∷ decimal bytes)))) =
      All-append IsInLine key _ (key-IsInLine key a) ((λ e. omega arith), numbers) in
    let letters : All IsInLine (codes "VALUE") = ground arith in
    All-append IsInLine (codes "VALUE")
      (b' ' ∷ (key ++ (b' ' ∷ (decimal flags ++ (b' ' ∷ decimal bytes))))) letters
      ((λ e. omega arith), words)

-- The client reads the line of a value to its end, and no octet of the body.
pub split_first-value_words :
    (key : Bytes) (flags bytes : ℕ) (body : Bytes)
    → All IsKeyOctet key
    → split_first line_end ((value_words key flags bytes ++ line_end) ++ body)
      ≡ some (value_words key flags bytes, body)
split_first-value_words key flags bytes body a =
    rw (append_assoc (value_words key flags bytes) line_end body) (
      split_first_behind 13 (10 ∷ []) (value_words key flags bytes) body
        (value_words-IsInLine key flags bytes a))
