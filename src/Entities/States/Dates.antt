-- ===== src/Entities/States/Dates.antt =====
-- The installation date that is written, and the one that is shown from its register.
use apc_modbus_snmp_ha.Prelude.{
  ℕ, ◌+◌, ◌≤◌, ◌≡◌, ◌∙◌, refl, ap, true, String, str_eq, Option, none, some, List, [], ◌∷◌, arith,
  if◌then◌else◌,
}
use apc_modbus_snmp_ha.Prelude.Int.{pos, negsuc}
use apc_modbus_snmp_ha.Prelude.Texts.{codes}
use apc_modbus_snmp_ha.Registers.{Descriptor, plain, uint16}
use apc_modbus_snmp_ha.Registers.Factory.{get_registers_for_device}
use apc_modbus_snmp_ha.Device.{
  ApcDeviceType, ups, smart_ups, smt_ups, rack_pdu, smartconnect_ups, unknown,
}
use apc_modbus_snmp_ha.Decode.{int, decode_register}
use apc_modbus_snmp_ha.Modbus.{Client}
use apc_modbus_snmp_ha.Transport.{Action, Transport}
use apc_modbus_snmp_ha.Transport
use apc_modbus_snmp_ha.Transport.Writes.{SentOnce, sent, write-SentOnce}
use apc_modbus_snmp_ha.Coordinator.Enrichment.Merging.{Data}
use apc_modbus_snmp_ha.Entities.States.{
  value_at, as_int, day, battery_date_of, battery_date_setting_address, async_set_value,
  installation_date, has_date,
}

-- What the register shows for a word
shown_word :
    (days : ℕ) → days ≤ 0xFFFF → battery_date_of (some (int (pos days))) ≡ some (day (pos days))
unfolding as_int
shown_word days h = ground (arith, h)

-- The family's register of this key
abbrev pub register_of : String → List Descriptor → Option Descriptor
register_of key [] = none
register_of key (d ∷ ds) = if str_eq d.key key then some d else register_of key ds

abbrev pub date_register_of : ApcDeviceType → Option Descriptor
date_register_of device_type =
    register_of "battery_installation_date_days" (get_registers_for_device device_type).registers

-- A family with the entity polls an unscaled word at the address that the entity writes.
polled_register :
    (device_type : ApcDeviceType) (r : Descriptor)
    → has_date device_type ≡ true
    → date_register_of device_type ≡ some r
    → r ≡ plain "battery_installation_date_days" battery_date_setting_address 1 uint16 1
unfolding get_registers_for_device
polled_register smt_ups r h there = cc
polled_register smartconnect_ups r h there = cc
polled_register ups r h there = absurd (ground arith)
polled_register smart_ups r h there = absurd (ground arith)
polled_register rack_pdu r h there = absurd (ground arith)
polled_register unknown r h there = absurd (ground arith)

-- For a family with the date's entity, whose registers give the key of the date the descriptor `r`.
-- A date at most 65535 days behind 2000-01-01 is accepted: its number of days is sent to the address
-- of `r` in one request where the write returns, and in that one or none where it raises; and the
-- entity shows that date once `r` is polled with that word. A later date, and one before 2000-01-01,
-- is refused.
pub async_set_value-installation_date :
    (client : Client) (t : Transport) (device_type : ApcDeviceType) (days excess : ℕ)
    (values : Data) (r : Descriptor) (rest : List ℕ)
    → days ≤ 0xFFFF
    → has_date device_type ≡ true
    → date_register_of device_type ≡ some r
    → value_at (codes "battery_installation_date_days") values ≡ decode_register (days ∷ rest) r
    → (write : Action (Unit {0})) × (async_set_value client (pos days) ≡ some write)
      × SentOnce (r.address, days ∷ []) (sent t.trace) (write t).0 (sent (write t).1.trace)
      × (installation_date values ≡ some (day (pos days)))
      × (async_set_value client (pos (0x10000 + excess)) ≡ none)
      × (async_set_value client (negsuc excess) ≡ none)
unfolding async_set_value installation_date decode_register
async_set_value-installation_date client t device_type days excess values r rest h family there v =
    let same = polled_register device_type r family there in
    let word : value_at (codes "battery_installation_date_days") values ≡ some (int (pos days)) =
      v ∙ ap (decode_register (days ∷ rest)) same in
    (
      Transport.write client battery_date_setting_address (days ∷ []),
      ground (arith, h),
      rw same (write-SentOnce client battery_date_setting_address (days ∷ []) t),
      rw word (shown_word days h),
      ground arith,
      refl,
    )
