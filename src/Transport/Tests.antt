-- ===== src/Transport/Tests.antt =====
-- The transport over a client that answers, over one that breaks down, and over one that drops the
-- connection.
use apc_modbus_snmp_ha.Prelude.{◌≡◌, refl, true, false, none, some, List, [], ◌∷◌, arith}
use apc_modbus_snmp_ha.Modbus.{os_error, returned, raised, Response, Client}
use apc_modbus_snmp_ha.Transport.{
  Transport, session, one_request_per_connection, plain_error, write,
}
use apc_modbus_snmp_ha.Transport.Promotion.{promotions}
use apc_modbus_snmp_ha.Transport.Pacing.{KeepsGap}
use apc_modbus_snmp_ha.Transport.Writes.{SentOnce, sent, write-SentOnce}
use apc_modbus_snmp_ha.Transport.Runs.{
  Operation, reading, writing, ensuring, closing, reconnecting, failing, run, run-KeepsGap,
  run-promotes_once,
}

abbrev no_response : Response
no_response = record {
  error_method = some true;
  registers = none;
  exception_code = some 2;
  function_code = none;
  address = none;
  count = none;
  value = none;
}

-- It connects, and then every read drops the connection.
abbrev dropping : Client
dropping = record {
  connect = λ n. returned true;
  read = λ n a c. raised (plain_error os_error);
  write = λ n a ws. returned no_response;
  close = λ n. none;
  elapsed = λ n. 10;
}

abbrev fresh : Transport
fresh = record {
  mode = session;
  session_request_succeeded = false;
  promotion_reason = none;
  keep_connection_open = false;
  same_endpoint_entries = 1;
  idle_reconnect = 30000;
  connect_failures = 0;
  last_io_monotonic = 0;
  reconnect_count = 0;
  recreate_count = 0;
  post_connect_delay = 0;
  min_reconnect_delay = 100;
  last_close_monotonic = 0;
  retries = some 0;
  now = 5000;
  calls = 0;
  trace = [];
}

abbrev proven : Transport
proven = record fresh { session_request_succeeded = true }

abbrev operations : List Operation
operations =
    ensuring
    ∷ reading 0 23
    ∷ failing (plain_error os_error)
    ∷ reading 128 26
    ∷ writing 1536 (0 ∷ 16 ∷ [])
    ∷ reconnecting true
    ∷ closing
    ∷ []

write-SentOnce_example :
    SentOnce
      (1536, 0 ∷ 16 ∷ [])
      (sent fresh.trace)
      (write dropping 1536 (0 ∷ 16 ∷ []) fresh).0
      (sent (write dropping 1536 (0 ∷ 16 ∷ []) fresh).1.trace)
write-SentOnce_example = write-SentOnce dropping 1536 (0 ∷ 16 ∷ []) fresh

fresh-KeepsGap : KeepsGap 100 fresh
fresh-KeepsGap = record { delay = refl; past = ground arith; noted = refl; paced = tt }

run-KeepsGap_example : KeepsGap 100 (run dropping operations fresh)
run-KeepsGap_example = run-KeepsGap dropping 100 operations fresh (λ n. refl) fresh-KeepsGap

run-promotes_once_example :
    (promotions (run dropping operations proven) ≡ promotions proven)
    × (proven.mode ≡ one_request_per_connection
        → (run dropping operations proven).mode ≡ one_request_per_connection)
run-promotes_once_example = run-promotes_once dropping operations proven
