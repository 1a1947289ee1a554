-- ===== src/Modbus.antt =====
-- What the Modbus client library answers: responses, exceptions, and the test that tells an error
-- response (custom_components/apc_modbus/modbus_poller.py and modbus_transport.py).
-- The client itself is no code of the repository: its answers are a parameter, `Client`.
use apc_modbus_snmp_ha.Prelude.{
  ℕ, Bool, false, not, Option, none, some, List, [], ◌∷◌, length, ◌==◌, if◌then◌else◌, is_some,
}

pub data ExceptionKind : Type 0 where
  connection_exception modbus_exception os_error timeout_error : ExceptionKind
  type_error value_error key_error index_error runtime_error update_failed : ExceptionKind

-- An exception, with what the code reads of its text: the fragments that the lower-cased text has.
pub record Raised : Type 0 where
  pub kind : ExceptionKind
  pub has_broken_pipe : Bool
  pub has_connection : Bool
  pub has_reset : Bool

pub data Outcome (A : Type 0) : Type 0 where
  returned : A → Outcome A
  raised : Raised → Outcome A

-- A response object. A field is `none` where the object lacks the attribute or holds None;
-- `error_method` is what its `isError` or `is_error` method returns.
pub record Response : Type 0 where
  pub error_method : Option Bool
  pub registers : Option (List ℕ)
  pub exception_code : Option ℕ
  pub function_code : Option ℕ
  pub address : Option ℕ
  pub count : Option ℕ
  pub value : Option ℕ

-- `_is_error_response`
unfoldable pub is_error_response : Response → Bool
is_error_response r = elim r.error_method [ some error ↦ error | none ↦ not (is_some r.registers) ]

-- `response.registers`, for a response that is no error; an error method that says False on a
-- response without registers gives no registers.
abbrev pub registers_of : Response → List ℕ
registers_of r = elim r.registers [ none ↦ [] | some rs ↦ rs ]

abbrev pub holds : Option ℕ → ℕ → Bool
holds none n = false
holds (some m) n = m == n

abbrev pub first_register : Option (List ℕ) → Option ℕ
first_register (some (r ∷ _)) = some r
first_register _ = none

abbrev pub echoed_value : Response → Option ℕ
echoed_value r = elim r.value [ some v ↦ some v | none ↦ first_register r.registers ]

abbrev pub echoes : Response → List ℕ → Bool
echoes r (word ∷ []) = holds (echoed_value r) word
echoes r words = holds r.count (length words)

-- `_write_response_valid`
unfoldable pub write_response_valid : Response → ℕ → List ℕ → Bool
write_response_valid r address words =
    if elim r.error_method [ some error ↦ error | none ↦ false ]
    then false
    else if not (holds r.address address)
    then false
    else if holds r.function_code 16
    then holds r.count (length words)
    else echoes r words

-- The client's answer to its n-th call, and the milliseconds that the call takes.
pub record Client : Type 0 where
  pub connect : ℕ → Outcome Bool
  pub read : ℕ → ℕ → ℕ → Outcome Response
  pub write : ℕ → ℕ → List ℕ → Outcome Response
  pub close : ℕ → Option Raised
  pub elapsed : ℕ → ℕ
