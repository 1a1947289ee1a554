-- ===== src/Poller/Tests.antt =====
-- A poll of two registers in one block, from a device that answers and from one that is silent.
use apc_modbus_snmp_ha.Prelude.{
  ℕ, ◌+◌, ◌*◌, ◌≤◌, ◌≡◌, ◌≢◌, refl, inl, inr, String, true, false, none, some, List, [], ◌∷◌, All,
  arith, eq_iff,
}
use apc_modbus_snmp_ha.Prelude.Dict.{Dict, lookup, insert, erase}
use apc_modbus_snmp_ha.Prelude.Int.{pos}
use apc_modbus_snmp_ha.Registers.{Descriptor, Block, plain, block, uint16, uint32, register_map}
use apc_modbus_snmp_ha.Decode.{Value, int, decode_register}
use apc_modbus_snmp_ha.Device.{smt_ups}
use apc_modbus_snmp_ha.Energy.{update}
use apc_modbus_snmp_ha.Energy.Storage.{from_storage, as_dict, seed}
use apc_modbus_snmp_ha.Energy.Continuity.{IsNondecreasing, OfDevice, total}
use apc_modbus_snmp_ha.Poller.Tracking.{new_keeper, async_track_output_energy, track_reading}
use apc_modbus_snmp_ha.Poller.Tracking.Restarts.{
  Event, OfOne, refreshed, saved, restarted, totals, totals-IsNondecreasing,
}
use apc_modbus_snmp_ha.Modbus.{returned, raised, os_error, Client}
use apc_modbus_snmp_ha.Transport.{Transport, session, plain_error}
use apc_modbus_snmp_ha.Transport.Answers.{IsServing}
use apc_modbus_snmp_ha.Transport.Requests.{requests}
use apc_modbus_snmp_ha.Poller.{
  Poller, Progress, no_progress, decode_block, decode_addresses, async_poll,
}
use apc_modbus_snmp_ha.Poller.Readings.{IsRegisterMap, words}
use apc_modbus_snmp_ha.Poller.Memory.{IsLaidOut, AreDone}
use apc_modbus_snmp_ha.Poller.Serving.{from_memory, async_poll-reads}
use apc_modbus_snmp_ha.Poller.Bounds.{async_poll-requests}

abbrev descriptors : List Descriptor
descriptors = plain "status" 3 1 uint16 1 ∷ plain "energy" 4 2 uint32 1 ∷ []

abbrev blocks : List Block
blocks = block "all" 2 5 (3 ∷ 4 ∷ []) ∷ []

abbrev poller : Poller
poller = record {
  registers = descriptors;
  register_blocks = blocks;
  register_map = register_map descriptors;
  inter_block_delay = 50;
}

-- Every register holds its address.
abbrev memory : ℕ → ℕ
memory a = a

abbrev device : Client
device = record {
  connect = λ n. returned true;
  read = λ n a c. returned (from_memory memory a c);
  write = λ n a ws. raised (plain_error os_error);
  close = λ n. none;
  elapsed = λ n. 10;
}

abbrev silent : Client
silent = record device { read = λ n a c. raised (plain_error os_error) }

abbrev idle : Transport
idle = record {
  mode = session;
  session_request_succeeded = false;
  promotion_reason = none;
  keep_connection_open = false;
  same_endpoint_entries = 1;
  idle_reconnect = 30000;
  connect_failures = 0;
  last_io_monotonic = 0;
  reconnect_count = 0;
  recreate_count = 0;
  post_connect_delay = 0;
  min_reconnect_delay = 100;
  last_close_monotonic = 0;
  retries = some 0;
  now = 5000;
  calls = 0;
  trace = [];
}

block_decoded :
    (decode_block poller (words memory 2 5) (block "all" 2 5 (3 ∷ 4 ∷ [])) no_progress).values
    ≡ ("status", int (pos 3)) ∷ ("energy", int (pos 0x40005)) ∷ []
unfolding decode_addresses register_map decode_register words insert
block_decoded = refl

short_answer :
    (decode_block poller (1 ∷ 2 ∷ 3 ∷ []) (block "all" 2 5 (3 ∷ 4 ∷ [])) no_progress).errors
    ≡ "energy" ∷ []
unfolding decode_addresses register_map decode_register insert
short_answer = refl

serving : IsServing (from_memory memory) device
serving = record {
  opens = record { connects = λ n. refl; closes = λ n. refl };
  reads = λ n a c. refl;
}

apart : ◌≢◌ {A = String} "status" "energy"
apart h = ground (arith, eq_iff "status" "energy")

is_map : IsRegisterMap (register_map descriptors)
unfolding register_map
is_map = record { placed = λ a d h. ground arith; keyed = λ a b d e ha hb h. ground (arith, apart) }

laid_out : IsLaidOut (register_map descriptors) blocks
unfolding register_map
laid_out = ((λ d h. ground arith, (λ d h. ground arith, tt)), tt)

async_poll-reads_example :
    (p : Progress) × ((async_poll device poller false idle).0 ≡ returned p)
    × (p.errors ≡ [])
    × AreDone memory (register_map descriptors) blocks p
async_poll-reads_example = async_poll-reads memory device poller false idle serving is_map laid_out

async_poll-requests_example :
    requests (async_poll silent poller false idle).1.trace ≤ requests [] + (6 * 1 + 4 * 2)
async_poll-requests_example = async_poll-requests silent poller false idle

-- A day of an SMT device that is reset while Home Assistant restarts: the counter falls, is held
-- back, and is taken for a reset at the second low reading behind the restart.
abbrev at : ℕ → Dict Value
at raw_wh = ("output_energy", int (pos raw_wh)) ∷ []

abbrev with_restarts : List Event
with_restarts =
    refreshed (at 5000) (some "A1")
    ∷ saved
    ∷ refreshed (at 10) (some "A1")
    ∷ restarted
    ∷ refreshed (at 12) none
    ∷ refreshed [] (some "A1")
    ∷ refreshed (at 15) (some "A1")
    ∷ []

held_back : totals smt_ups 0 (new_keeper 0 none) with_restarts ≡ 5000 ∷ 5000 ∷ 5000 ∷ 5015 ∷ []
unfolding totals async_track_output_energy track_reading update from_storage as_dict seed lookup
    insert erase
held_back = refl

no_serial : OfDevice "A1" (from_storage none 0).serial_number
unfolding from_storage seed
no_serial = inl refl

day_fits : All (OfOne "A1") with_restarts
unfolding lookup
day_fits = (
  (inr refl, omega arith),
  (
    tt,
    (
      (inr refl, omega arith),
      (tt, ((inl refl, omega arith), ((inr refl, tt), ((inr refl, omega arith), tt)))),
    ),
  ),
)

totals-IsNondecreasing_example :
    IsNondecreasing
      (total (from_storage none 0))
      (totals smt_ups 0 (new_keeper 0 none) with_restarts)
totals-IsNondecreasing_example =
    totals-IsNondecreasing "A1" smt_ups 0 none with_restarts refl no_serial day_fits
