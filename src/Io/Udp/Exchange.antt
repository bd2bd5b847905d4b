-- ===== src/Io/Udp/Exchange.antt =====
-- include/mcache/proto/parser.h over a UDP connection: one exchange with a server that answers.
use mcache_client.Prelude.{
  ℕ, suc, ◌≡◌, refl, sym, ◌∙◌, ap, inl, inr, false, List, [], ◌∷◌, ◌++◌, some, arith, Bool-cases,
  ◌==◌, ◌%◌, ◌^◌, ltb, le→not_ltb, Bytes, length, length-append, take_seam, drop_seam, append-nil,
  map,
}
use mcache_client.Error.{Result, returns}
use mcache_client.Io.Search.{split_first}
use mcache_client.Io.Tcp.{Arrival, chunk, written}
use mcache_client.Io.Udp as Udp
use mcache_client.Io.Udp.{Udp, fill, packet_bytes, search_header, cut_front}
use mcache_client.Io.Udp.Link.{Link, Network, request, after_write, write, udp}
use mcache_client.Io.Udp.Message.{IsMessage, payloads, at, fill-IsMessage}
use mcache_client.Proto.Command.{
  Delimiter, behind, after, Command, >>=-of-returns, read_header, deserialize_body, send,
}
use mcache_client.Proto.Command.Steps.{length_zero, completed, no_body, some_body, send_steps}
use mcache_client.Proto.Response.{IsResponse}

-- How an answer falls into the header that the client gets and the body. The delimiter is in neither.
abbrev pub Parts : Delimiter → Bytes → Bytes → Bytes → Type 0
Parts (behind d) header body answer = split_first d answer ≡ some (header, body)
Parts (after n) header body answer = (n ≡ length header) × (answer ≡ header ++ body)

-- Reads where the buffer is empty and a message has come, and of a whole buffer.
module _ (addr header body answer : Bytes) (id : ℕ) (incoming : List Arrival) where
  abbrev waiting : Udp
  waiting = at addr [] id incoming

  read_until-filled :
      (d : Bytes)
      → fill waiting ≡ (at addr answer id [], returns tt)
      → split_first d answer ≡ some (header, body)
      → Udp.read_until d waiting ≡ (at addr body id [], returns header)
  unfolding Udp.read_until
  read_until-filled d filled e =
      >>=-of-returns fill (λ u. search_header d) waiting (ap (λ q. q.1) filled)
      ∙ ap (λ (q : Udp × Result (Unit {0})). search_header d q.0) filled
      ∙ rw e refl

  cut_front-enough :
      answer ≡ header ++ body
      → cut_front (length header) (at addr answer id []) ≡ (at addr body id [], returns header)
  cut_front-enough e =
      let long : ltb (length (header ++ body)) (length header) ≡ false =
        le→not_ltb (length (header ++ body)) (length header)
          (omega (arith, length-append header body)) in
      rw
        (
          e,
          long,
          take_seam (length header) header body refl,
          drop_seam (length header) header body refl,
        )
        refl

  read-filled :
      fill waiting ≡ (at addr answer id [], returns tt)
      → answer ≡ header ++ body
      → Udp.read (length header) waiting ≡ (at addr body id [], returns header)
  unfolding Udp.read
  read-filled filled e =
      >>=-of-returns fill (λ u. cut_front (length header)) waiting (ap (λ q. q.1) filled)
      ∙ ap (λ (q : Udp × Result (Unit {0})). cut_front (length header) q.0) filled
      ∙ cut_front-enough e

read-rest :
    (addr body : Bytes) (id : ℕ)
    → (length body == 0) ≡ false
    → Udp.read (length body) (at addr body id []) ≡ (at addr [] id [], returns body)
unfolding Udp.read
read-rest addr [] id h = cc
read-rest addr (c ∷ body) id h =
    cut_front-enough addr (c ∷ body) [] (c ∷ body) id [] (sym (append-nil (c ∷ body)))

-- What is read from a message that waits in datagrams.
module _ {P : Type 0} (draw : ℕ → ℕ) (network : Network P) where
  abbrev pub link : Udp → P → ℕ → Link P
  link u s made = record { udp = u; peer = s; made = made }

  read_header-filled :
      (delimiter : Delimiter) (addr header body answer : Bytes) (id : ℕ) (incoming : List Arrival)
      (s : P) (made : ℕ)
      → fill (at addr [] id incoming) ≡ (at addr answer id [], returns tt)
      → Parts delimiter header body answer
      → read_header (udp draw network) delimiter (link (at addr [] id incoming) s made)
        ≡ (link (at addr body id []) s made, returns header)
  unfolding read_header
  read_header-filled (behind d) addr header body answer id incoming s made filled e =
      ap (λ (q : Udp × Result Bytes). (link q.0 s made, q.1))
        (read_until-filled addr header body answer id incoming d filled e)
  read_header-filled (after n) addr header body answer id incoming s made filled (size, e) =
      rw size (
        ap (λ (q : Udp × Result Bytes). (link q.0 s made, q.1))
          (read-filled addr header body answer id incoming filled e))

  module _ {R : Type 0} ⦃i : IsResponse R⦄ where
    deserialize_body-filled :
        (r r' : R) (addr body : Bytes) (id : ℕ) (s : P) (made : ℕ)
        → i.expected_body_size r ≡ length body
        → completed r body ≡ returns r'
        → deserialize_body (udp draw network) r (link (at addr body id []) s made)
          ≡ (link (at addr [] id []) s made, returns r')
    deserialize_body-filled r r' addr body id s made size e =
        elim (Bool-cases (i.expected_body_size r == 0)) [
          | inl none_expected ↦
              let empty = length_zero body (ground (arith, size)) in
              no_body (udp draw network) r (link (at addr body id []) s made) none_expected
              ∙ ap (λ b. (link (at addr b id []) s made, returns r)) empty
              ∙ ap (λ x. (link (at addr [] id []) s made, x)) (rw none_expected at e)
          | inr some_expected ↦
              let got : Udp.read (i.expected_body_size r) (at addr body id [])
                  ≡ (at addr [] id [], returns body) =
                rw size (read-rest addr body id (rw size at some_expected)) in
              let set : i.set_body r body ≡ returns r' = rw some_expected at e in
              some_body (udp draw network) r body (link (at addr body id []) s made) some_expected
                (ap (λ q. q.1) got)
              ∙ (λ j. (link (got j).0 s made, set j))
        ]

    -- An exchange over an idle UDP connection with an open socket: where the network answers the request's datagram with the
    -- datagrams of one message of the request's identifier, in order and each at least as long as a
    -- header, and the message falls into a header and a body that fit the command, `send` returns the
    -- response with its body, and the connection is idle again, its socket
    -- open. Unlike over TCP, the header does not hold
    -- the delimiter.
    pub send_datagrams :
        (command : Command R) (addr packet header body raw : Bytes) (raws : List Bytes) (r r' : R)
        (s s' : P) (old made : ℕ)
        → command.serialize ≡ returns packet
        → network (packet_bytes (request (draw made % 2 ^ 16)) packet) s
          ≡ (s', written (map chunk (raw ∷ raws)))
        → IsMessage (draw made % 2 ^ 16) (suc (length raws)) 0 (raw ∷ raws)
        → Parts command.header_delimiter header body (payloads (raw ∷ raws))
        → command.deserialize_header header ≡ returns r
        → i.expected_body_size r ≡ length body
        → completed r body ≡ returns r'
        → send (udp draw network) command (link (at addr [] old []) s made)
          ≡ (link (at addr [] (draw made % 2 ^ 16) []) s' (suc made), returns r')
    unfolding write
    send_datagrams command addr packet header body raw raws r r' s s' old made serial sent message
          parts parsed size done =
        let id = draw made % 2 ^ 16 in
        let start = link (at addr [] old []) s made in
        let arriving = map chunk (raw ∷ raws) in
        let written : write draw network packet start
            ≡ (link (at addr [] id arriving) s' (suc made), returns tt) =
          ap (after_write draw network (link (at addr [] id []) s (suc made))) sent in
        let filled : fill (at addr [] id arriving)
            ≡ (at addr (payloads (raw ∷ raws)) id [], returns tt) =
          rw append-nil at (fill-IsMessage addr raw raws id [] message) in
        let begun : read_header (udp draw network) command.header_delimiter
              (write draw network packet start).0
            ≡ (link (at addr body id []) s' (suc made), returns header) =
          ap
            (λ (q : Link P × Result (Unit {0})).
              read_header (udp draw network) command.header_delimiter q.0)
            written
          ∙ read_header-filled command.header_delimiter addr header body (payloads (raw ∷ raws)) id
              arriving s' (suc made) filled parts in
        send_steps (udp draw network) command packet header r start serial (ap (λ q. q.1) written)
          (ap (λ q. q.1) begun) parsed
        ∙ ap (λ (q : Link P × Result Bytes). deserialize_body (udp draw network) r q.0) begun
        ∙ deserialize_body-filled r r' addr body id s' (suc made) size done
