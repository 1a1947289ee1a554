-- ===== src/Transport/Answers.antt =====
-- The transport over a client that serves every call: what its operations return.
use apc_modbus_snmp_ha.Prelude.{ℕ, ◌≡◌, Bool, true, false, none, arith}
use apc_modbus_snmp_ha.Modbus.{Outcome, returned, Client, Response}
pub use apc_modbus_snmp_ha.Transport.Endings.{
  Returns, Returns-pure, Returns-branch, Returns-true, Returns-finally, Returns-bind, Returns-gets,
  Returns-then, Returns-check, Returns-modify, Returns-sleep, Returns-await, returns_rules, Ends,
  Ends-branch, Ends-finally, Ends-bind, Ends-then, Ends-raised, Ends-client_read,
}
use apc_modbus_snmp_ha.Transport.{
  ◌>>=◌, ◌>>◌, pure, modify, branch, finally, is_session, mark_io_activity, mark_closed,
  await_reconnect_pacing, client_connect, client_read, client_close, close_and_mark,
  read_one_request, read, reconnect, ensure_connection, close, connected, raise, unable_to_open,
  recreate_client, open_session, failed_connect,
}

-- Every connect and close of the client succeeds.
pub record IsOpening (client : Client) : Type 0 where
  pub connects : (n : ℕ) → client.connect n ≡ returned true
  pub closes : (n : ℕ) → client.close n ≡ none

module _ {client : Client} (opens : IsOpening client) where
  pub Returns-connect : Returns true (client_connect client)
  unfolding client_connect
  Returns-connect = record { at = λ t. let h = opens.connects t.calls in ground arith }

  Returns-client_close : Returns tt (client_close client)
  unfolding client_close
  Returns-client_close = record { at = λ t. let h = opens.closes t.calls in ground arith }

  pub Returns-close_and_mark : Returns tt (close_and_mark client)
  unfolding close_and_mark
  Returns-close_and_mark =
      Returns-bind tt tt _ _ Returns-client_close (λ u e. Returns-modify mark_closed)

  -- a read on a connection of its own, by how the read ends
  pub Ends-one_request :
      (r : Outcome Response) (a c : ℕ)
      → Ends r (client_read client a c)
      → Ends r (read_one_request client a c)
  unfolding read_one_request
  Ends-one_request r a c h = Ends-then tt r await_reconnect_pacing _ Returns-await (
      Ends-bind true r (client_connect client)
        (λ ok.
          branch ok (finally (client_read client a c) (close_and_mark client))
            (raise unable_to_open))
        Returns-connect
        (Ends-finally r (client_read client a c) (close_and_mark client) h Returns-close_and_mark))

  pub Returns-close : Returns tt (close client)
  unfolding close
  Returns-close = record { at = λ t. let h = Returns-client_close.at t in ground arith }

  Returns-connected : Returns true connected
  unfolding connected
  Returns-connected = search returns_rules depth 10

  Returns-recreate_client : Returns tt (recreate_client client)
  unfolding recreate_client
  Returns-recreate_client = search (returns_rules, Returns-close)

  pub Returns-reconnect : (recreate : Bool) → Returns true (reconnect client recreate)
  unfolding reconnect
  Returns-reconnect recreate =
      search
        (
          returns_rules, Returns-await, Returns-connect, Returns-connected, Returns-close,
          Returns-recreate_client,
        )
        depth 10

  opening : Returns true (
      await_reconnect_pacing >>= λ _.
      client_connect client >>= λ ok. branch ok connected (failed_connect client))
  opening = search (returns_rules, Returns-await, Returns-connect, Returns-connected)

  idle :
      Returns true (reconnect client false >>= λ ok. branch ok (pure true) (reconnect client true))
  idle = search (returns_rules, Returns-reconnect)

  pub Returns-ensure_connection : Returns true (ensure_connection client)
  unfolding ensure_connection open_session
  Returns-ensure_connection = record {
    at = λ t. let h = opening.at t in let k = idle.at t in ground arith;
  }

-- A read of such a client answers as `answer` says.
pub record IsServing (answer : ℕ → ℕ → Response) (client : Client) : Type 0 where
  pub opens : IsOpening client
  pub reads : (n a c : ℕ) → client.read n a c ≡ returned (answer a c)

module _ {answer : ℕ → ℕ → Response} {client : Client} (serving : IsServing answer client) where
  Returns-client_read : (a c : ℕ) → Returns (answer a c) (client_read client a c)
  unfolding client_read
  Returns-client_read a c = record { at = λ t. serving.reads t.calls a c }

  Returns-read_one_request : (a c : ℕ) → Returns (answer a c) (read_one_request client a c)
  Returns-read_one_request a c =
      let ends : Ends (returned (answer a c)) (client_read client a c) = record {
        at = (Returns-client_read a c).at;
      } in
      record { at = (Ends-one_request serving.opens (returned (answer a c)) a c ends).at }

  noted : (r s : Response) → s ≡ r → Returns r (modify mark_io_activity >> pure s)
  noted r s e = rw e (search returns_rules)

  pub Returns-read : (a c : ℕ) → Returns (answer a c) (read client a c)
  unfolding read
  Returns-read a c =
      Returns-gets (answer a c) (λ t. t.mode) _
        (λ mode.
          Returns-bind (answer a c) (answer a c) _ _
            (Returns-branch (answer a c) (is_session mode) _ _ (Returns-client_read a c)
              (Returns-read_one_request a c))
            (noted (answer a c)))
