-- ===== src/Wire.antt =====
-- custom_components/apc_modbus/modbus_wire.py: the Modbus TCP request frame, and the reading of a
-- complete response from a stream socket.
-- A byte is a number. A socket is the list of what arrives on it: segments of at least one byte,
-- and faults, for which `recv` raises an OSError; after the last of them the peer has closed it.
-- A peer is a function from a request to what arrives after it; a `sendall` that fails is a peer
-- that answers with a fault, since both raise an OSError to the same handlers.
pub mod Chunks
pub mod Pack
mod Tests
use apc_modbus_snmp_ha.Prelude.{
  ℕ, zero, suc, ◌+◌, ◌-◌, ◌*◌, ◌/◌, ◌%◌, Bool, ◌&&◌, Option, none, some, List, [], ◌∷◌, ◌++◌, take,
  drop, length, leb, ltb, ◌==◌, if◌then◌else◌,
}

pub data Arrival : Type 0 where
  segment : ℕ → List ℕ → Arrival
  fault : Arrival

-- The exceptions; `stuck` is none of Python's: the loop of `recv_exact` ran out of fuel.
pub data WireError : Type 0 where
  os_error short_response invalid_length struct_error stuck : WireError

pub data Result (A : Type 0) : Type 0 where
  ok : A → Result A
  err : WireError → Result A

infixl 5 ◌>>=◌
abbrev pub ◌>>=◌ : {A B : Type 0} → Result A → (A → Result B) → Result B
ok a >>= f = f a
err e >>= f = err e

-- A result of `none` is a `struct.error`.
abbrev pub or_struct_error : {A : Type 0} → Option A → Result A
or_struct_error none = err struct_error
or_struct_error (some a) = ok a

-- What a `recv` of fewer bytes leaves of a segment
abbrev pub put_back : List ℕ → List Arrival → List Arrival
put_back [] rest = rest
put_back (b ∷ bs) rest = segment b bs ∷ rest

-- `connection.recv(size)`
unfoldable pub recv : ℕ → List Arrival → Result (List ℕ × List Arrival)
recv size [] = ok ([], [])
recv size (fault ∷ rest) = err os_error
recv size (segment b bs ∷ rest) = ok (take size (b ∷ bs), put_back (drop size (b ∷ bs)) rest)

-- The loop of `recv_exact`; `chunks` are joined already. Each round takes a byte at least, so
-- `size` rounds are enough.
unfoldable pub recv_loop : ℕ → ℕ → List ℕ → List Arrival → Result (List ℕ × List Arrival)
recv_loop zero zero chunks s = ok (chunks, s)
recv_loop zero (suc size) chunks s = err stuck
recv_loop (suc fuel) zero chunks s = ok (chunks, s)
recv_loop (suc fuel) (suc size) chunks s = elim (recv (suc size) s) [
  | err e ↦ err e
  | ok ([], s') ↦ err short_response
  | ok (b ∷ bs, s') ↦ recv_loop fuel (suc size - length (b ∷ bs)) (chunks ++ (b ∷ bs)) s'
]

abbrev pub recv_exact : ℕ → List Arrival → Result (List ℕ × List Arrival)
recv_exact size s = recv_loop size size [] s

-- `struct.pack(">H", n)`
abbrev pub pack_word : ℕ → List ℕ
pack_word n = n / 256 ∷ n % 256 ∷ []

-- `struct.pack(">HHHBBHH", 1, 0, 6, unit_id, 3, address, count)`, none for a field out of range
unfoldable pub pack_request : ℕ → ℕ → ℕ → Option (List ℕ)
pack_request unit_id address count =
    if ltb unit_id 256 && (ltb address 65536 && ltb count 65536)
    then some (
        pack_word 1
        ++ (pack_word 0 ++ (pack_word 6 ++ (unit_id ∷ 3 ∷ pack_word address ++ pack_word count))))
    else none

abbrev pub mbap_header_length : ℕ
mbap_header_length = 7

-- the third field of `struct.unpack(">HHHB", header)`
abbrev pub response_length : List ℕ → ℕ
response_length (_ ∷ _ ∷ _ ∷ _ ∷ high ∷ low ∷ _) = high * 256 + low
response_length _ = 0

-- What the code does after the header is there
unfoldable pub receive_rest : List ℕ → List Arrival → Result (List ℕ × List Arrival)
receive_rest header s =
    if ltb (response_length header) 2
    then err invalid_length
    else (do (rest, s) ← recv_exact (response_length header - 1) s; ok (header ++ rest, s))

-- What the code does after the request is sent
unfoldable pub receive_frame : List Arrival → Result (List ℕ × List Arrival)
receive_frame s = do (header, s) ← recv_exact mbap_header_length s; receive_rest header s

-- The read on a connection on which something may have arrived already
unfoldable pub read_holding_registers_on_connection :
    (List ℕ → List Arrival) → List Arrival → ℕ → ℕ → ℕ → Result (List ℕ × List Arrival)
read_holding_registers_on_connection peer arrived unit_id address count = do
  request ← or_struct_error (pack_request unit_id address count)
  receive_frame (arrived ++ peer request)

-- The read on a fresh connection, and whether the connect succeeds
unfoldable pub read_holding_registers : Bool → (List ℕ → List Arrival) → ℕ → ℕ → ℕ → Result (List ℕ)
read_holding_registers connects peer unit_id address count =
    if connects
    then (do
      (frame, _) ← read_holding_registers_on_connection peer [] unit_id address count
      ok frame)
    else err os_error
