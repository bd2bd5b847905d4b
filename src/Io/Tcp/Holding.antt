-- ===== src/Io/Tcp/Holding.antt =====
-- include/mcache/proto/parser.h over a TCP connection: the write of a request, and the reads of what
-- the connection holds behind it.
use mcache_client.Prelude.{
  ℕ, ◌≤◌, ◌≡◌, refl, sym, ◌∙◌, ap, true, List, [], ◌++◌, some, arith, Bytes, take_seam, drop_seam,
  length, length-append, append_assoc,
}
use mcache_client.Error.{Result, returns}
use mcache_client.Io.Tcp.{
  Arrival, Peer, Tcp, written, up_to, at_least, read_until, read, write, tcp, after_write,
}
use mcache_client.Io.Tcp.Flow.{Flows, octets-append, Flows-append, read_until-Flows, read-Flows}
use mcache_client.Io.Tcp.Stream.{
  octets, stream, ReadsAs, Reads-enough, read_until-Reads, read-Reads,
}
use mcache_client.Proto.Command.{Delimiter, behind, after, read_header}

-- The delimiter ends this header, whatever body follows.
abbrev pub Ends : Delimiter → Bytes → Bytes → Type 0
Ends (behind d) header body = up_to d (header ++ body) ≡ some (length header)
Ends (after n) header body = n ≡ length header

at_least_lem : (s : Bytes) (n : ℕ) → n ≤ length s → at_least n s ≡ some n
unfolding at_least
at_least_lem s n h = ground arith

module _ {P : Type 0} where
  -- A connection on which nothing is under way.
  pub record IsIdle (t : Tcp P) : Type 0 where
    pub is_open : t.is_open ≡ true
    pub flows : Flows t.incoming
    pub drained : stream t ≡ []

  -- A connection on which these octets stand, or will arrive.
  pub record Holds (whole : Bytes) (s : P) (t : Tcp P) : Type 0 where
    pub is_open : t.is_open ≡ true
    pub flows : Flows t.incoming
    pub holds : stream t ≡ whole
    pub peer : t.peer ≡ s

  -- A read of the front of what the connection holds.
  abbrev pub Front : Bytes → Bytes → P → Tcp P × Result Bytes → Type 0
  Front header body s q = (q.1 ≡ returns header) × Holds body s q.0

  front :
      (header body : Bytes) (s : P) (t : Tcp P) (q : Tcp P × Result Bytes)
      → Holds (header ++ body) s t
      → ReadsAs (some (length header)) t q
      → Flows q.0.incoming
      → Front header body s q
  front header body s t q h (result, left, open', same) f = (
    result ∙ ap returns (rw h.holds (take_seam (length header) header body refl)),
    record {
      is_open = open';
      flows = f;
      holds = left ∙ rw h.holds (drop_seam (length header) header body refl);
      peer = same ∙ h.peer;
    },
  )

  pub read-Front :
      (header body : Bytes) (s : P) (t : Tcp P)
      → Holds (header ++ body) s t
      → Front header body s (read (length header) t)
  read-Front header body s t h =
      front header body s t (read (length header) t) h
        (Reads-enough (at_least (length header)) t (read (length header) t) (length header)
          (read-Reads (length header) t h.is_open)
          (at_least_lem (stream t) (length header)
            (rw h.holds (omega (arith, length-append header body)))))
        (read-Flows (length header) t h.is_open h.flows)

  read_until-Front :
      (d header body : Bytes) (s : P) (t : Tcp P)
      → Holds (header ++ body) s t
      → up_to d (header ++ body) ≡ some (length header)
      → Front header body s (read_until d t)
  read_until-Front d header body s t h e =
      front header body s t (read_until d t) h
        (Reads-enough (up_to d) t (read_until d t) (length header) (read_until-Reads d t h.is_open)
          (rw h.holds e))
        (read_until-Flows d t h.is_open h.flows)

  module _ (server : Peer P) where
    pub read_header-Front :
        (delimiter : Delimiter) (header body : Bytes) (s : P) (t : Tcp P)
        → Holds (header ++ body) s t
        → Ends delimiter header body
        → Front header body s (read_header (tcp server) delimiter t)
    unfolding read_header
    read_header-Front (behind d) header body s t h e = read_until-Front d header body s t h e
    read_header-Front (after n) header body s t h e = rw e (read-Front header body s t h)

    write_open :
        (packet : Bytes) (t : Tcp P)
        → t.is_open ≡ true
        → write server packet t ≡ after_write t (server.accept packet t.peer)
    unfolding write
    write_open packet t o = rw o refl

    pub write-Holds :
        (packet : Bytes) (s : P) (more : List Arrival) (t : Tcp P)
        → IsIdle t
        → server.accept packet t.peer ≡ (s, written more)
        → Flows more
        → ((write server packet t).1 ≡ returns tt) × Holds (octets more) s (write server packet t).0
    write-Holds packet s more t idle e f =
        rw (write_open packet t idle.is_open ∙ ap (after_write t) e) (
          refl,
          record {
            is_open = idle.is_open;
            flows = Flows-append t.incoming more idle.flows f;
            holds =
                ap (◌++◌ t.input) (octets-append t.incoming more idle.flows)
                ∙ sym (append_assoc t.input (octets t.incoming) (octets more))
                ∙ ap (λ o. o ++ octets more) idle.drained;
            peer = refl;
          },
        )
