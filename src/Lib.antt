-- ===== src/Lib.antt =====
-- The memcache client library: a client that spreads keys over servers, the proxies that watch the
-- servers, the pools, the connections and the two protocols.
--
-- How the parts work together: the client asks its pool for the walk of servers of a key and gives the
-- command to one server proxy after the other. A proxy picks a connection from its pool, lets the
-- command parser write the request and read the response over it, and keeps account of failures.
--
-- - Prelude: numbers, Boolean tests, lists, octets, words in network order, decimal digits.
-- - Error: include/mcache/error.h, io/error.h and proto/error.h beside it. Code that may throw returns a
--   `Result`. `fault` stands for what C++ leaves undefined: a read or a write outside an object.
-- - Client: include/mcache/client.h. `run_loop` is the loop of `run`, over the list of indices that the
--   pool's iterator gives; `Servers` is what it uses of the proxies. Client/Operations has `set`, `add`,
--   `get` and the others, Client/Operations/Typed their overloads for other types,
--   Client/Operations/Update `atomic_update`, Client/Operations/FlushAll `run_all` and `flush_all`.
-- - Server/Lock and Server/Proxy: include/mcache/lock.h and include/mcache/server-proxy.h, with the
--   functions' names. Time is in nanoseconds from the clock's first moment. There a call is one step;
--   Server/Proxy/Threads has the accesses to the shared data one by one, in any interleaving.
-- - Pool/Ring, Pool/ConsistentHashing and Pool/Modulo: include/mcache/pool. The hash function is a
--   parameter.
-- - Io/Connections: include/mcache/io/connections.h; Io/Address, Io/Tcp and Io/Udp: src/io/connection.cc.
--   What the sockets do is a parameter: `Peer` for TCP, `Network` for UDP.
-- - Cluster: include/mcache/server-proxies.h, every proxy with its pool of TCP connections and its server;
--   it is the `Servers` of a whole client. Cluster/Whole adds the client's constructor and the pool.
--   Here the pool of connections is the caching one, as for the clients of mcache::thread in
--   include/mcache/mcache.h. Cluster/Memcached and Cluster/Text are what the two protocols promise of a
--   server: it holds what is set unless an expiration is asked for, and never anything else. Cluster/Cache
--   has the cache that the client is to its caller, and what it expects of a server beyond that.
-- - Proto/Response, Proto/Command, Proto/Options, Proto/Key, Proto/Zlib, Proto/Bin and Proto/Txt:
--   include/mcache/proto and src/proto. The zlib library is a parameter.
-- - Python: python/mcache.cc, the Python module, over any `Servers`. Python, its pickles and the C
--   library's snprintf, strtold and atoll are the parameter `Interpreter`.
-- - Tests: the theorems at concrete inputs.
--
-- Bounds: an octet is a number below 256, and the fields of a packet keep the widths of the source, with
-- the wrap-around written out. Fuel: the loops over a pool's iterator are given the steps that they may
-- take; twice the ring's size and one more are enough. `atomic_update` counts its rounds down as the
-- source does. All other loops are structural recursion.
--
-- Not modelled: the sockets, timers and resolvers (Boost.Asio), the hash functions, the client's
-- conversions of floats and of the serialisation libraries' values, the shared memory of the proxies,
-- logging, and of the Python module the registration of its classes and `atomic_update`.
pub mod Client
pub mod Cluster
pub mod Error
pub mod Io
pub mod Pool
mod Prelude
pub mod Proto
pub mod Python
pub mod Server
mod Tests
