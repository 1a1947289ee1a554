-- ===== src/Wire/Tests.antt =====
-- Runs of the frame reader on segments that cut the frames anywhere.
use apc_modbus_snmp_ha.Prelude.{◌≡◌, refl, List, [], ◌∷◌}
use apc_modbus_snmp_ha.Wire.{
  Arrival, segment, fault, ok, err, os_error, invalid_length, recv, recv_loop, recv_exact,
  receive_rest, receive_frame,
}
use apc_modbus_snmp_ha.Wire.Chunks.{IsExact, recv_exact-IsExact}

abbrev arrivals : List Arrival
arrivals = segment 1 (2 ∷ []) ∷ segment 3 (4 ∷ 5 ∷ []) ∷ fault ∷ []

four : recv_exact 4 arrivals ≡ ok (1 ∷ 2 ∷ 3 ∷ 4 ∷ [], segment 5 [] ∷ fault ∷ [])
unfolding recv_loop recv
four = refl

six : recv_exact 6 arrivals ≡ err os_error
unfolding recv_loop recv
six = refl

no_body : receive_frame (segment 0 (1 ∷ 0 ∷ 0 ∷ 0 ∷ 1 ∷ 9 ∷ []) ∷ []) ≡ err invalid_length
unfolding receive_frame receive_rest recv_loop recv
no_body = refl

recv_exact-IsExact_example : IsExact 4 arrivals (recv_exact 4 arrivals)
recv_exact-IsExact_example = recv_exact-IsExact 4 arrivals
