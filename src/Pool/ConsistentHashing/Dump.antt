-- ===== src/Pool/ConsistentHashing/Dump.antt =====
-- src/pool/consistent-hashing.cc and src/server-proxy.cc: the descriptions of a ring and of a proxy.
use mcache_client.Prelude.{
  ℕ, List, [], ◌∷◌, ◌++◌, Option, none, some, Bytes, codes, decimal, get_elem?,
}
use mcache_client.Pool.Ring.{Ring, Node}

abbrev described : ℕ → Option Bytes → Bytes
described idx none = decimal idx
described idx (some state) = decimal idx ++ (codes " {" ++ (state ++ codes "}"))

-- `dump_t::desc`: the index, with the state if there is one.
unfoldable pub desc : List Bytes → ℕ → Bytes
desc states idx = described idx (get_elem? states idx)

-- `dump_t::operator()`: a line.
unfoldable pub dump_node : List Bytes → Node → Bytes
unfolding desc
dump_node states node =
    codes "[" ++ (decimal node.hash ++ (codes "] -> " ++ (desc states node.index ++ 10 ∷ [])))

-- `dump`: all of them, in the order of the ring.
unfoldable pub dump : List Bytes → Ring → Bytes
unfolding dump_node
dump states [] = []
dump states (node ∷ ring) = dump_node states node ++ dump states ring

-- `make_state_string`.
unfoldable pub make_state_string : Bytes → ℕ → ℕ → ℕ → ℕ → Bytes
make_state_string srv connections restoration_interval fails dead =
    srv
    ++ (codes " [connections-in-pool="
        ++ (decimal connections
            ++ (codes ", new-restoration-attempt="
                ++ (decimal restoration_interval
                    ++ (codes ", fails="
                        ++ (decimal fails ++ (codes ", dead=" ++ (decimal dead ++ codes "]"))))))))
