-- ===== src/Transport/Runs.antt =====
-- Sequences of the transport's operations, in any order and with any answers of the client.
use apc_modbus_snmp_ha.Prelude.{ℕ, ◌≡◌, none, refl, Bool, List, [], ◌∷◌, arith}
use apc_modbus_snmp_ha.Modbus.{Raised, Client}
use apc_modbus_snmp_ha.Transport.{
  Transport, one_request_per_connection, note, read_sent, write_sent, read, write, close, reconnect,
  ensure_connection, record_failure,
}
use apc_modbus_snmp_ha.Transport.Keeps.{
  Stable, Keeps-read, Keeps-write, Keeps-close, Keeps-reconnect, Keeps-ensure_connection,
}
use apc_modbus_snmp_ha.Transport.Promotion.{
  promotions, Stable-promotions, record_failure-promotions, Stable-one_request,
  record_failure-one_request,
}
use apc_modbus_snmp_ha.Transport.Pacing.{KeepsGap, Stable-KeepsGap, record_failure-KeepsGap}

pub data Operation : Type 0 where
  reading : ℕ → ℕ → Operation
  writing : ℕ → List ℕ → Operation
  ensuring closing : Operation
  reconnecting : Bool → Operation
  failing : Raised → Operation

-- The state behind one operation, whether it returns or raises.
pub perform : Client → Operation → Transport → Transport
perform client (reading a c) t = (read client a c t).1
perform client (writing a ws) t = (write client a ws t).1
perform client ensuring t = (ensure_connection client t).1
perform client closing t = (close client t).1
perform client (reconnecting recreate) t = (reconnect client recreate t).1
perform client (failing e) t = record_failure e t

pub run : Client → List Operation → Transport → Transport
run client [] t = t
run client (op ∷ rest) t = run client rest (perform client op t)

module _ {P : Transport → Type 0} (client : Client) (stable : Stable client P)
    (read_noted : (t : Transport) (a c : ℕ) → P t → P (note (read_sent a c) t))
    (write_noted : (t : Transport) (a : ℕ) (ws : List ℕ) → P t → P (note (write_sent a ws) t))
    (failed : (e : Raised) (t : Transport) → P t → P (record_failure e t)) where
  perform-keeps : (op : Operation) (t : Transport) → P t → P (perform client op t)
  unfolding perform
  perform-keeps (reading a c) t h = (Keeps-read client stable read_noted a c).at t h
  perform-keeps (writing a ws) t h = (Keeps-write client stable write_noted a ws).at t h
  perform-keeps ensuring t h = (Keeps-ensure_connection client stable).at t h
  perform-keeps closing t h = (Keeps-close client stable).at t h
  perform-keeps (reconnecting recreate) t h = (Keeps-reconnect client stable recreate).at t h
  perform-keeps (failing e) t h = failed e t h

  pub run-keeps : (ops : List Operation) (t : Transport) → P t → P (run client ops t)
  unfolding run
  run-keeps [] t h = h
  run-keeps (op ∷ rest) t h = run-keeps rest (perform client op t) (perform-keeps op t h)

-- For a client whose `close` does not raise: whatever the operations and the other answers of the
-- client, every connection is opened at least the configured gap after the last call of `close`
-- before it, also where it is a request's own close.
pub run-KeepsGap :
    (client : Client) (gap : ℕ) (ops : List Operation) (t : Transport)
    → ((n : ℕ) → client.close n ≡ none)
    → KeepsGap gap t
    → KeepsGap gap (run client ops t)
run-KeepsGap client gap ops t closes =
    run-keeps client (Stable-KeepsGap client gap closes) (λ t a c h. ground arith)
      (λ t a ws h. ground arith) (record_failure-KeepsGap gap) ops t

-- Over any operations and answers, one-request mode is never left, and the new mode is persisted
-- once if a session ends in it and never otherwise.
pub run-promotes_once :
    (client : Client) (ops : List Operation) (t : Transport)
    → (promotions (run client ops t) ≡ promotions t)
      × (t.mode ≡ one_request_per_connection → (run client ops t).mode ≡ one_request_per_connection)
run-promotes_once client ops t = (
  run-keeps client (Stable-promotions client (promotions t)) (λ u a c h. h) (λ u a ws h. h)
      (record_failure-promotions (promotions t)) ops t refl,
  run-keeps client (Stable-one_request client) (λ u a c h. h) (λ u a ws h. h)
      record_failure-one_request ops t,
)
