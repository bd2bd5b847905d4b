-- ===== src/Io/Udp/Message.antt =====
-- Which datagrams make a response, and what is in the buffer then.
use mcache_client.Prelude.{
  ℕ, suc, ◌+◌, ◌-◌, ◌*◌, ◌/◌, ◌%◌, ◌^◌, ◌≤◌, ◌<◌, ◌≡◌, ◌∙◌, ap, true, List, [], ◌∷◌, ◌++◌, arith,
  ◌==◌, le→not_ltb, Bytes, codes, be, from_be, from_be-be, drop, length, append_assoc, append-nil,
  map,
}
use mcache_client.Error.{Result, returns}
use mcache_client.Io.Udp.{
  Packet, packet_bytes, parse_packet, Udp, receive, fill_rest, fill, require, own_id,
}
use mcache_client.Io.Tcp.{Arrival, chunk}
use mcache_client.Proto.Command.{Action, ◌>>=◌, ◌>>◌}

eq_refl : (n : ℕ) → (n == n) ≡ true
eq_refl n = ground arith

suc_sub_one : (n : ℕ) → suc n - 1 ≡ n
suc_sub_one n = omega arith

pub record IsPacket (p : Packet) : Type 0 where
  pub id : p.id < 2 ^ 16
  pub seq : p.seq < 2 ^ 16
  pub count : p.count < 2 ^ 16

-- A packet's header whose three numbers fit in 16 bits is read as it was written.
pub parse_packet-packet_bytes :
    (p : Packet) (payload : Bytes) → IsPacket p → parse_packet (packet_bytes p payload) ≡ p
unfolding parse_packet packet_bytes be from_be
parse_packet-packet_bytes p payload v = λ i. record {
  id = raw_id p.id v.id i;
  seq = from_be-be 2 p.seq v.seq i;
  count = from_be-be 2 p.count v.count i;
}
  where
    raw_id : (n : ℕ) → n < 2 ^ 16 → 0 * 256 + n % 256 + 256 * (0 * 256 + n / 256 % 256) ≡ n
    raw_id n h = omega arith

-- Datagrams that carry the parts of one message of `count` parts, from number `i` on.
abbrev pub IsMessage : ℕ → ℕ → ℕ → List Bytes → Type 0
IsMessage id count i [] = Unit {0}
IsMessage id count i (raw ∷ raws) =
    (8 ≤ length raw)
    × (parse_packet raw ≡ record { id = id; seq = i; count = count })
    × IsMessage id count (suc i) raws

-- What the datagrams carry behind their headers.
abbrev pub payloads : List Bytes → Bytes
payloads [] = []
payloads (raw ∷ raws) = drop 8 raw ++ payloads raws

abbrev arriving : List Bytes → List Arrival
arriving = map chunk

-- A connection whose socket is open.
abbrev pub at : Bytes → Bytes → ℕ → List Arrival → Udp
at addr buffer id incoming = record {
  addr = addr;
  is_open = true;
  buffer = buffer;
  id = id;
  incoming = incoming;
}

receive-long :
    (addr buffer : Bytes) (id : ℕ) (raw : Bytes) (rest : List Arrival)
    → 8 ≤ length raw
    → receive (at addr buffer id (chunk raw ∷ rest))
      ≡ (at addr (buffer ++ drop 8 raw) id rest, returns (parse_packet raw))
unfolding receive
receive-long addr buffer id raw rest long = rw (le→not_ltb (length raw) 8 long)

fill_rest-next :
    (left i : ℕ) (first p : Packet) (u u' : Udp)
    → receive u ≡ (u', returns p)
    → p ≡ record { id = u'.id; seq = i; count = first.count }
    → fill_rest (suc left) i first u ≡ fill_rest left (suc i) first u'
unfolding fill_rest
fill_rest-next left i first p u u' received e =
    ap (λ (q : Udp × Result Packet). ((λ (w : Udp). q) >>= check) u) received
    ∙ rw (e, eq_refl i, eq_refl first.count, eq_refl u'.id)
  where
    check : Packet → Action Udp (Unit {0})
    check next = do
      require (next.seq == i) (codes "next: invalid seq number")
      require (next.count == first.count) (codes "next: invalid count")
      own ← own_id
      require (next.id == own) (codes "next: invalid id")
      fill_rest left (suc i) first

fill_rest-IsMessage :
    (raws : List Bytes) (i id : ℕ) (first : Packet) (addr buffer : Bytes) (rest : List Arrival)
    → IsMessage id first.count i raws
    → fill_rest (length raws) i first (at addr buffer id (arriving raws ++ rest))
      ≡ (at addr (buffer ++ payloads raws) id rest, returns tt)
unfolding fill_rest
fill_rest-IsMessage [] i id first addr buffer rest m = rw append-nil
fill_rest-IsMessage (raw ∷ raws) i id first addr buffer rest (long, header, m) =
    fill_rest-next (length raws) i first (parse_packet raw)
      (at addr buffer id (arriving (raw ∷ raws) ++ rest))
      (at addr (buffer ++ drop 8 raw) id (arriving raws ++ rest))
      (receive-long addr buffer id raw (arriving raws ++ rest) long) header
    ∙ fill_rest-IsMessage raws (suc i) id first addr (buffer ++ drop 8 raw) rest m
    ∙ rw append_assoc

-- Where the socket is open, the buffer is empty and the datagrams of a message of this identifier come in order, each at
-- least as long as a header, `fill` takes all of them and no more, and leaves what they carry, in
-- order, in the buffer.
pub fill-IsMessage :
    (addr raw : Bytes) (raws : List Bytes) (id : ℕ) (rest : List Arrival)
    → IsMessage id (suc (length raws)) 0 (raw ∷ raws)
    → fill (at addr [] id (arriving (raw ∷ raws) ++ rest))
      ≡ (at addr (payloads (raw ∷ raws)) id rest, returns tt)
unfolding fill
fill-IsMessage addr raw raws id rest (long, header, m) =
    ap (λ (q : Udp × Result Packet). ((λ (w : Udp). q) >>= check) (at addr [] id []))
      (receive-long addr [] id raw (arriving raws ++ rest) long
        ∙ ap (λ (p : Packet). (at addr (drop 8 raw) id (arriving raws ++ rest), returns p)) header)
    ∙ rw (eq_refl id, suc_sub_one (length raws))
        (fill_rest-IsMessage raws 1 id (record { id = id; seq = 0; count = suc (length raws) }) addr
          (drop 8 raw) rest m)
  where
    check : Packet → Action Udp (Unit {0})
    check packet = do
      require (packet.seq == 0) (codes "first: invalid seq number")
      own ← own_id
      require (packet.id == own) (codes "first: invalid id")
      fill_rest (packet.count - 1) 1 packet
