-- ===== src/Diagnostics/Frames.antt =====
-- What the diagnostics make of the frames that a Modbus server sends.
use apc_modbus_snmp_ha.Prelude.{
  ℕ, zero, suc, ◌*◌, ◌≤◌, ◌<◌, ◌≡◌, refl, ap, true, none, some, List, [], ◌∷◌, ◌++◌, length, take,
  arith, ltb, ◌==◌, if◌then◌else◌,
}
use apc_modbus_snmp_ha.Device.{
  ProbeOutcome, response, modbus_exception, short_response, transport_failure,
}
use apc_modbus_snmp_ha.Wire.{
  Arrival, WireError, ok, err, pack_word, pack_request, read_holding_registers,
  read_holding_registers_on_connection,
}
use apc_modbus_snmp_ha.Wire.Chunks.{stream, ending}
use apc_modbus_snmp_ha.Wire.Pack.{
  mbap_frame, word-pack_word, receive_frame-IsReceived, receive_frame-err,
}
use apc_modbus_snmp_ha.Diagnostics.{
  Parsed, parsed_registers, parsed_error, exception_error, unpack_words, parse_fields,
  parse_modbus_response, collected, block_error, collect_modbus_block, probe_outcome,
}

-- A register is a 16-bit word.
abbrev pub IsWord : ℕ → Type 0
IsWord n = n < 65536

abbrev pub pack_words : List ℕ → List ℕ
pack_words [] = []
pack_words (w ∷ ws) = pack_word w ++ pack_words ws

-- The bodies of a server's answers to a read: the registers, and an exception.
abbrev pub data_body : List ℕ → List ℕ
data_body registers = 3 ∷ (2 * length registers) ∷ pack_words registers

abbrev pub exception_body : ℕ → List ℕ
exception_body code = 0x83 ∷ code ∷ []

length-pack_words : (ws : List ℕ) → length (pack_words ws) ≡ 2 * length ws
length-pack_words [] = refl
length-pack_words (w ∷ ws) = omega (arith, length-pack_words ws)

unpack-pack_words : (ws : List ℕ) → unpack_words (pack_words ws) ≡ some ws
unfolding unpack_words
unpack-pack_words [] = refl
unpack-pack_words (w ∷ ws) = rw (unpack-pack_words ws) (ap (λ n. some (n ∷ ws)) (word-pack_word w))

take-all : (n : ℕ) (xs : List ℕ) → length xs ≡ n → take n xs ≡ xs
take-all zero [] h = refl
take-all zero (x ∷ xs) h = absurd (omega arith)
take-all (suc n) [] h = refl
take-all (suc n) (x ∷ xs) h = ap (λ t. x ∷ t) (take-all n xs (omega arith))

abbrev pub request_frame : ℕ → ℕ → ℕ → List ℕ
request_frame unit_id start count = mbap_frame 1 0 unit_id (3 ∷ pack_word start ++ pack_word count)

-- Fields in range are packed as a frame of the format.
pack_request-frame :
    (unit_id start count : ℕ)
    → unit_id < 256
    → IsWord start
    → IsWord count
    → pack_request unit_id start count ≡ some (request_frame unit_id start count)
unfolding pack_request
pack_request-frame unit_id start count hu hs hc =
    let u : ltb unit_id 256 ≡ true = ground arith in
    let s : ltb start 65536 ≡ true = ground arith in
    let c : ltb count 65536 ≡ true = ground arith in rw (u, s, c) refl

-- A read whose peer sends a frame returns exactly that frame.
read-frame :
    (peer : List ℕ → List Arrival) (unit_id start count transaction : ℕ) (body more : List ℕ)
    → unit_id < 256
    → IsWord start
    → IsWord count
    → 1 ≤ length body
    → stream (peer (request_frame unit_id start count))
      ≡ mbap_frame transaction 0 unit_id body ++ more
    → read_holding_registers true peer unit_id start count
      ≡ ok (mbap_frame transaction 0 unit_id body)
unfolding read_holding_registers read_holding_registers_on_connection
read-frame peer unit_id start count transaction body more hu hs hc some_body arrives =
    let (s', got, left) =
      receive_frame-IsReceived transaction 0 unit_id body more
        (peer (request_frame unit_id start count)) some_body arrives in
    rw (pack_request-frame unit_id start count hu hs hc) (rw got refl)

read-short :
    (peer : List ℕ → List Arrival) (unit_id start count : ℕ)
    → unit_id < 256
    → IsWord start
    → IsWord count
    → length (stream (peer (request_frame unit_id start count))) < 7
    → read_holding_registers true peer unit_id start count
      ≡ err (ending (peer (request_frame unit_id start count)))
unfolding read_holding_registers read_holding_registers_on_connection
read-short peer unit_id start count hu hs hc short =
    rw (pack_request-frame unit_id start count hu hs hc) (rw (receive_frame-err _ short) refl)

parse-data :
    (transaction unit_id : ℕ) (registers : List ℕ)
    → parse_modbus_response (mbap_frame transaction 0 unit_id (data_body registers))
      ≡ ok (parsed_registers unit_id registers)
unfolding parse_modbus_response parse_fields
parse-data transaction unit_id registers =
    let whole =
      take-all (2 * length registers) (pack_words registers) (length-pack_words registers) in
    rw whole (rw (unpack-pack_words registers) refl)

parse-exception :
    (transaction unit_id code : ℕ)
    → parse_modbus_response (mbap_frame transaction 0 unit_id (exception_body code))
      ≡ ok (parsed_error (exception_error code))
unfolding parse_modbus_response parse_fields
parse-exception transaction unit_id code = refl

collect-parsed :
    (peer : List ℕ → List Arrival) (unit_id start count : ℕ) (raw : List ℕ) (parsed : Parsed)
    → read_holding_registers true peer unit_id start count ≡ ok raw
    → parse_modbus_response raw ≡ ok parsed
    → collect_modbus_block true peer unit_id start count ≡ collected start count raw parsed
unfolding collect_modbus_block
collect-parsed peer unit_id start count raw parsed got parses =
    rw (got, collect_modbus_block) (rw parses refl)

collect-err :
    (peer : List ℕ → List Arrival) (unit_id start count : ℕ) (e : WireError)
    → read_holding_registers true peer unit_id start count ≡ err e
    → collect_modbus_block true peer unit_id start count ≡ block_error e
unfolding collect_modbus_block
collect-err peer unit_id start count e failed = rw (failed, collect_modbus_block) refl

-- What a server makes of a read: registers, an exception, or nothing that the reader can use.
pub data Answer : Type 0 where
  data_answer : List ℕ → Answer
  exception_answer : ℕ → Answer
  no_answer : Answer

-- The stream begins with the frame of the answer; without one it ends within the header.
abbrev pub Carries : ℕ → Answer → List ℕ → Type 0
Carries unit_id (data_answer registers) bytes =
    (transaction : ℕ) × (more : List ℕ) × (bytes
      ≡ mbap_frame transaction 0 unit_id (data_body registers) ++ more)
Carries unit_id (exception_answer code) bytes =
    (transaction : ℕ) × (more : List ℕ) × (bytes
      ≡ mbap_frame transaction 0 unit_id (exception_body code) ++ more)
Carries unit_id no_answer bytes = length bytes < 7

-- What a probe says of an answer, by the definition of the outcomes.
abbrev pub outcome_of : Answer → ℕ → ProbeOutcome
outcome_of (data_answer registers) count =
    if length registers == count
    then record { kind = response; registers = registers; exception_code = none }
    else record { kind = short_response; registers = []; exception_code = none }
outcome_of (exception_answer code) count = record {
  kind = modbus_exception;
  registers = [];
  exception_code = some code;
}
outcome_of no_answer count = record {
  kind = transport_failure;
  registers = [];
  exception_code = none;
}

-- For a unit, an address and a count that fit their fields, and a peer that answers the packed
-- request with any segments that carry the answer, whatever follows it: the probe's outcome is the
-- answer's. It is the registers if there are as many as were asked for, the exception with its
-- code, and a transport failure when nothing usable arrives.
pub probe_outcome-Carries :
    (peer : List ℕ → List Arrival) (unit_id start count : ℕ) (answer : Answer)
    → unit_id < 256
    → IsWord start
    → IsWord count
    → Carries unit_id answer (stream (peer (request_frame unit_id start count)))
    → probe_outcome (some (collect_modbus_block true peer unit_id start count)) count
      ≡ outcome_of answer count
unfolding probe_outcome exception_error
probe_outcome-Carries peer unit_id start count (data_answer rs) hu hs hc (transaction, more, e) =
    ap (λ b. probe_outcome (some b) count)
      (collect-parsed peer unit_id start count _ _
        (read-frame peer unit_id start count transaction (data_body rs) more hu hs hc (omega arith)
          e)
        (parse-data transaction unit_id rs))
probe_outcome-Carries peer unit_id start count (exception_answer code) hu hs hc
      (transaction, more, e) =
    ap (λ b. probe_outcome (some b) count)
      (collect-parsed peer unit_id start count _ _
        (read-frame peer unit_id start count transaction (exception_body code) more hu hs hc
          (omega arith) e)
        (parse-exception transaction unit_id code))
probe_outcome-Carries peer unit_id start count no_answer hu hs hc short =
    ap (λ b. probe_outcome (some b) count)
      (collect-err peer unit_id start count _ (read-short peer unit_id start count hu hs hc short))
