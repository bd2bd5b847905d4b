-- ===== src/Proto/Command/Steps.antt =====
-- include/mcache/proto/parser.h: an exchange, step by step.
use mcache_client.Prelude.{
  ◌≡◌, refl, ◌∙◌, true, false, [], ◌∷◌, arith, ◌==◌, if◌then◌else◌, Bytes, length,
}
use mcache_client.Error.{Exception, Result, returns, throws}
use mcache_client.Proto.Command.{
  Connection, Command, ◌>>=◌, ◌>>◌, lift, >>=-of-returns, >>=-of-throws, read_header,
  deserialize_body, deserialize_response, send,
}
use mcache_client.Proto.Response.{IsResponse}

pub length_zero : (body : Bytes) → length body ≡ 0 → body ≡ []
length_zero [] e = refl
length_zero (c ∷ body) e = absurd (omega arith)

module _ {R : Type 0} ⦃i : IsResponse R⦄ where
  -- What a response becomes with its body.
  abbrev pub completed : R → Bytes → Result R
  completed r body = if i.expected_body_size r == 0 then returns r else i.set_body r body

module _ {C : Type 0} (conn : Connection C) {R : Type 0} ⦃i : IsResponse R⦄ where
  pub no_body :
      (r : R) (t : C)
      → (i.expected_body_size r == 0) ≡ true
      → deserialize_body conn r t ≡ (t, returns r)
  unfolding deserialize_body
  no_body r t e = rw e refl

  pub some_body :
      (r : R) (body : Bytes) (t : C)
      → (i.expected_body_size r == 0) ≡ false
      → (conn.read (i.expected_body_size r) t).1 ≡ returns body
      → deserialize_body conn r t ≡ ((conn.read (i.expected_body_size r) t).0, i.set_body r body)
  unfolding deserialize_body
  some_body r body t e got =
      rw e (>>=-of-returns (conn.read (i.expected_body_size r)) (λ b. lift (i.set_body r b)) t got)

  -- An exchange whose header cannot be read.
  pub send_unread :
      (command : Command R) (packet : Bytes) (x : Exception) (t : C)
      → command.serialize ≡ returns packet
      → (conn.write packet t).1 ≡ returns tt
      → (read_header conn command.header_delimiter (conn.write packet t).0).1 ≡ throws x
      → send conn command t
        ≡ ((read_header conn command.header_delimiter (conn.write packet t).0).0, throws x)
  unfolding send deserialize_response
  send_unread command packet x t serial sent broken =
      >>=-of-returns (lift command.serialize)
        (λ p. conn.write p >> deserialize_response conn command) t serial
      ∙ >>=-of-returns (conn.write packet) (λ _. deserialize_response conn command) t sent
      ∙ >>=-of-throws (read_header conn command.header_delimiter)
          (λ h. lift (command.deserialize_header h) >>= deserialize_body conn)
          (conn.write packet t).0 broken

  -- An exchange whose packet cannot be written.
  pub send_unwritten :
      (command : Command R) (packet : Bytes) (x : Exception) (t : C)
      → command.serialize ≡ returns packet
      → (conn.write packet t).1 ≡ throws x
      → send conn command t ≡ ((conn.write packet t).0, throws x)
  unfolding send deserialize_response
  send_unwritten command packet x t serial broken =
      >>=-of-returns (lift command.serialize)
        (λ p. conn.write p >> deserialize_response conn command) t serial
      ∙ >>=-of-throws (conn.write packet) (λ _. deserialize_response conn command) t broken

  pub send_steps :
      (command : Command R) (packet header : Bytes) (r : R) (t : C)
      → command.serialize ≡ returns packet
      → (conn.write packet t).1 ≡ returns tt
      → (read_header conn command.header_delimiter (conn.write packet t).0).1 ≡ returns header
      → command.deserialize_header header ≡ returns r
      → send conn command t
        ≡ deserialize_body conn r
            (read_header conn command.header_delimiter (conn.write packet t).0).0
  unfolding send deserialize_response
  send_steps command packet header r t serial sent begun parsed =
      >>=-of-returns (lift command.serialize)
        (λ p. conn.write p >> deserialize_response conn command) t serial
      ∙ >>=-of-returns (conn.write packet) (λ _. deserialize_response conn command) t sent
      ∙ >>=-of-returns (read_header conn command.header_delimiter)
          (λ h. lift (command.deserialize_header h) >>= deserialize_body conn)
          (conn.write packet t).0 begun
      ∙ >>=-of-returns (lift (command.deserialize_header header)) (deserialize_body conn)
          (read_header conn command.header_delimiter (conn.write packet t).0).0 parsed
