-- ===== src/Poller.antt =====
-- custom_components/apc_modbus/modbus_poller.py: one poll of a register map through the transport.
-- The dict and the list that the reads fill are local to `async_poll`; here they are handed on, as a
-- `Progress`. Elapsed times and the lock are not modelled: the transport's state is one poll's alone.
pub mod Readings
pub mod Memory
pub mod Tracking
pub mod Serving
pub mod Bounds
pub mod Keeping
mod Tests
use apc_modbus_snmp_ha.Prelude.{
  ℕ, ◌+◌, ◌-◌, String, Bool, true, false, not, ◌&&◌, ◌||◌, Option, none, some, List, [], ◌∷◌, ◌++◌,
  length, take, drop, ltb, leb, ◌==◌, if◌then◌else◌,
}
use apc_modbus_snmp_ha.Prelude.Dict.{Dict, insert}
use apc_modbus_snmp_ha.Registers.{Descriptor, Block, RegisterType, uint32, int32}
use apc_modbus_snmp_ha.Decode.{Value, decode_register}
use apc_modbus_snmp_ha.Modbus.{
  ExceptionKind, connection_exception, modbus_exception, os_error, timeout_error, type_error,
  value_error, key_error, index_error, update_failed, Raised, Outcome, returned, raised, Response,
  is_error_response, Client,
}
use apc_modbus_snmp_ha.Transport.{
  Transport, Mode, is_session, Action, ◌>>=◌, ◌>>◌, pure, raise, gets, modify, branch, sleep,
  is_connection_failure, plain_error, record_failure, read, reconnect, ensure_connection, close,
}

-- The register map and the delay between two blocks, in milliseconds.
pub record Poller : Type 0 where
  pub registers : List Descriptor
  pub register_blocks : List Block
  pub register_map : ℕ → Option Descriptor
  pub inter_block_delay : ℕ

-- `set_registers`
pub set_registers : List Descriptor → List Block → (ℕ → Option Descriptor) → Poller → Poller
set_registers registers register_blocks register_map p = record p {
  registers = registers;
  register_blocks = register_blocks;
  register_map = register_map;
}

-- What a poll has read so far: the dict `data` of the source, and its list of keys in error.
pub record Progress : Type 0 where
  pub values : Dict Value
  pub errors : List String

abbrev pub no_progress : Progress
no_progress = record { values = []; errors = [] }

abbrev pub add_error : String → Progress → Progress
add_error key p = record p { errors = p.errors ++ (key ∷ []) }

-- `if value is not None: data[key] = value`
abbrev pub store : String → Option Value → Progress → Progress
store key none p = p
store key (some value) p = record p { values = insert key value p.values }

abbrev pub known_keys : (ℕ → Option Descriptor) → List ℕ → List String
known_keys register_map [] = []
known_keys register_map (a ∷ rest) = elim (register_map a) [
  | none ↦ known_keys register_map rest
  | some d ↦ d.key ∷ known_keys register_map rest
]

-- `_mark_block_errors`
abbrev pub mark_block_errors : Poller → Block → Progress → Progress
mark_block_errors poller b p = record p {
  errors = p.errors ++ known_keys poller.register_map b.registers;
}

-- `registers[offset : offset + count]`
abbrev pub slice : List ℕ → ℕ → ℕ → List ℕ
slice registers offset count = take count (drop offset registers)

-- One descriptor of a block: a short slice is an error.
abbrev pub decode_one : List ℕ → ℕ → Descriptor → Progress → Progress
decode_one registers offset d p =
    if ltb (length (slice registers offset d.count)) d.count
    then add_error d.key p
    else store d.key (decode_register (slice registers offset d.count) d) p

-- `_decode_block`, over the addresses of the block. An address below the block's start, for which
-- Python's slice would count from the end, is in no block of the tables.
unfoldable pub decode_addresses :
    (ℕ → Option Descriptor) → List ℕ → ℕ → List ℕ → Progress → Progress
decode_addresses register_map registers start [] p = p
decode_addresses register_map registers start (a ∷ rest) p =
    decode_addresses register_map registers start rest
      (elim (register_map a) [ none ↦ p | some d ↦ decode_one registers (a - start) d p ])

abbrev pub decode_block : Poller → List ℕ → Block → Progress → Progress
decode_block poller registers b p =
    decode_addresses poller.register_map registers b.start_address b.registers p

-- The exceptions that a block read catches, and those that a single read catches.
abbrev pub is_block_failure : ExceptionKind → Bool
is_block_failure type_error = true
is_block_failure kind = is_connection_failure kind

abbrev pub is_register_failure : ExceptionKind → Bool
is_register_failure value_error = true
is_register_failure key_error = true
is_register_failure index_error = true
is_register_failure kind = is_block_failure kind

-- `try: m except kinds: handler`
abbrev pub catching :
    {A : Type 0} → (ExceptionKind → Bool) → Action A → (Raised → Action A) → Action A
catching catches m handler t =
    let (r, t') = m t in
    elim r [
      | returned a ↦ (returned a, t')
      | raised e ↦ if catches e.kind then handler e t' else (raised e, t')
    ]

abbrev pub has_retry_token : Raised → Bool
has_retry_token e = e.has_broken_pipe || e.has_connection || e.has_reset

-- What a response gives a block: nothing, the errors of the block, or its registers.
abbrev pub take_block : Poller → Block → Option Response → Progress × ℕ → Progress × ℕ
take_block poller b none (p, n) = (mark_block_errors poller b p, n)
take_block poller b (some r) (p, n) =
    if is_error_response r then (mark_block_errors poller b p, n) else (
      elim r.registers [
        | some registers ↦ decode_block poller registers b p
        -- a slice of None is a TypeError, where there is an address to decode
        | none ↦ mark_block_errors poller b p
      ],
      n + 1,
    )

-- `len` of None is a TypeError in the decoding of these types.
abbrev is_double : RegisterType → Bool
is_double uint32 = true
is_double int32 = true
is_double _ = false

-- A response that is no error gives one register its value, or the TypeError behind the reset of the
-- failures in a row.
abbrev take_words : Descriptor → Option (List ℕ) → Progress → Progress × ℕ
take_words d none p = if is_double d.type then (add_error d.key p, 1) else (p, 0)
take_words d (some registers) p = (store d.key (decode_register registers d) p, 0)

-- What a response gives one register, with the failures in a row.
abbrev pub take_register : Descriptor → Option Response → Progress × ℕ → Progress × ℕ
take_register d none (p, n) = (add_error d.key p, n + 1)
take_register d (some r) (p, n) =
    if is_error_response r then (add_error d.key p, n + 1) else take_words d r.registers p

abbrev pub same_mode : Mode → Mode → Bool
same_mode a b = if is_session a then is_session b else not (is_session b)

module _ (client : Client) where
  -- The handler of `_read_with_reconnect`
  pub retry_read : ℕ → ℕ → Raised → Action (Option Response)
  retry_read address count e = do
    modify (record_failure e)
    branch (has_retry_token e) (pure tt) (raise e)
    let recreate = e.has_broken_pipe || e.has_reset
    ok ← reconnect client recreate
    again ← branch ok (pure true) (branch recreate (pure false) (reconnect client true))
    branch again (read client address count >>= λ r. pure (some r)) (pure none)

  -- `_read_with_reconnect`
  pub read_with_reconnect : ℕ → ℕ → Action (Option Response)
  read_with_reconnect address count =
      catching is_connection_failure (read client address count >>= λ r. pure (some r))
        (retry_read address count)

  -- The end of a poll that leaves no connection open
  pub end_poll : Action (Unit {0})
  end_poll = close client >> modify (λ t. record t { last_io_monotonic = 0 })

  module _ (poller : Poller) where
    -- One turn of the loop of `_try_block_reads`
    pub try_block : Block → Progress × ℕ → Action (Progress × ℕ)
    try_block b (p, n) = do
      branch (ltb 0 poller.inter_block_delay) (sleep poller.inter_block_delay) (pure tt)
      catching is_block_failure
          (read_with_reconnect b.start_address b.count >>= λ r. pure (take_block poller b r (p, n)))
          (λ e. pure (mark_block_errors poller b p, n))

    unfoldable pub try_blocks : List Block → Progress × ℕ → Action (Progress × ℕ)
    try_blocks [] p = pure p
    try_blocks (b ∷ rest) p = try_block b p >>= try_blocks rest

    abbrev pub are_blocks_ok : Progress × ℕ → Bool
    are_blocks_ok (p, n) =
        n == length poller.register_blocks && elim p.errors [ [] ↦ true | _ ∷ _ ↦ false ]

    -- `_try_block_reads`, with what it has read and its result
    pub try_block_reads : Progress → Action (Progress × Bool)
    try_block_reads p =
        try_blocks poller.register_blocks (p, 0) >>= λ q. pure (q.0, are_blocks_ok q)

    -- One turn of the loop of `_try_individual_reads`
    pub try_register : Descriptor → Progress × ℕ → Action (Progress × ℕ)
    try_register d (p, n) =
        catching is_register_failure
          (read_with_reconnect d.address d.count >>= λ r. pure (take_register d r (p, n)))
          (λ e. pure (add_error d.key p, n + 1))

    -- `_try_individual_reads`: five failures in a row end it.
    unfoldable pub try_registers : List Descriptor → Progress × ℕ → Action (Progress × ℕ)
    try_registers [] p = pure p
    try_registers (d ∷ rest) p =
        try_register d p >>= λ q. branch (leb 5 q.1) (pure q) (try_registers rest q)

    pub try_individual_reads : Progress → Action Progress
    try_individual_reads p = try_registers poller.registers (p, 0) >>= λ q. pure q.0

    -- The block reads of a poll, done again from nothing where the mode has changed in them.
    pub read_blocks : Action (Progress × Bool)
    read_blocks = do
      before ← gets (λ t. t.mode)
      first ← try_block_reads no_progress
      after ← gets (λ t. t.mode)
      branch (same_mode after before) (pure first) (try_block_reads no_progress)

    -- The individual reads of a poll, on top of what the blocks gave.
    pub read_individually : Progress → Action Progress
    read_individually p = do
      before ← gets (λ t. t.mode)
      q ← try_individual_reads (record p { errors = [] })
      after ← gets (λ t. t.mode)
      branch (same_mode after before) (pure q) (
          try_block_reads no_progress >>= λ again.
          branch again.1 (pure again.0) (try_individual_reads again.0))

    -- The block reads, and the individual reads where they were not all well
    pub read_registers : Action Progress
    read_registers = do
      blocks ← read_blocks
      branch blocks.1 (pure blocks.0) (read_individually blocks.0)

    -- `async_poll`
    pub async_poll : Bool → Action Progress
    async_poll keep_connection_open = do
      ok ← ensure_connection client
      branch ok (pure tt) (raise (plain_error update_failed))
      result ← read_registers
      branch keep_connection_open (pure tt) end_poll
      pure result
