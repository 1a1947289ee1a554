-- ===== src/Lib.antt =====
-- A model of the Home Assistant integration apc_modbus (custom_components/apc_modbus), which polls
-- APC UPS and rack PDU devices over Modbus TCP.
--
-- The parts and how they interact. A coordinator refreshes an entry at its scan interval
-- (Coordinator). A refresh that the backoff lets through is one poll (Poller), which reads blocks
-- of registers through the transport and falls back to single reads; the transport owns the
-- client's connection, its mode, its reconnects and the gap between connections (Transport). What
-- a read returns is decoded by the descriptors of the device's family (Registers, Decode); which
-- family a device has is decided from five probes (Device). The output energy counter is made
-- continuous (Energy), commands go through the transport's write (Commands), and the load of many
-- entries is spread (Fleet). Optional values come over SNMP (Snmp). The setup of an entry (Setup)
-- connects, asks SNMP for a hint, probes the family where that is needed, stores it, reads the
-- identity and the capabilities, refreshes once and removes stale entities from the registry; the
-- platforms then create the entities that the family and the values call for (Entities). The
-- diagnostics read the same probes over a socket of their own (Wire, Diagnostics) and classify
-- them by the same function. Modbus holds the responses and the client, which is a parameter: its
-- answer to every numbered call, and the time that the call takes, are arbitrary unless a
-- hypothesis says more.
--
-- Which file models which:
--   Energy                 custom_components/apc_modbus/output_energy_tracker.py
--   Device                 custom_components/apc_modbus/device_types.py
--   Registers, and Smt, SmartUps and RackPdu below it
--                          custom_components/apc_modbus/registers_smt_ups.py,
--                          registers_smart_ups.py and registers_rack_pdu.py: descriptors and
--                          blocks, the rack PDU's for one phase, as the module builds them
--   Registers/Factory      custom_components/apc_modbus/register_factory.py
--   Wire                   custom_components/apc_modbus/modbus_wire.py
--   Diagnostics            custom_components/apc_modbus/diagnostic_collector.py: the parsing of
--                          responses, the blocks and probes and the detection summary; below it
--                          Decodes (the quick decode), Sanitizing (the redaction), SnmpData (the
--                          SNMP data, the input frequency and the probe tests) and Dump (the order
--                          of the connections, the idle probe and the identities)
--   Decode                 custom_components/apc_modbus/modbus_poller.py, decode_register
--   Modbus                 responses and the two tests of them
--   Transport              custom_components/apc_modbus/modbus_transport.py, ModbusTransport
--   Poller                 custom_components/apc_modbus/modbus_poller.py, ModbusPoller
--   Poller/Tracking        its async_restore_output_energy_tracker and async_track_output_energy
--   Coordinator            custom_components/apc_modbus/coordinator.py: _async_update_data,
--                          _register_failure, _should_run_now and the reports of episodes
--   Coordinator/Detection  custom_components/apc_modbus/coordinator.py: async_detect_device_type
--                          and _probe_outcome, on the transport
--   Coordinator/Enrichment custom_components/apc_modbus/coordinator.py: the metadata, their hourly
--                          refresh and retry, and the _merge_ steps behind a poll; snmp_state.py
--   Coordinator/Identity   custom_components/apc_modbus/coordinator.py:
--                          async_discover_capabilities, async_read_modbus_metadata,
--                          set_device_type and get_device_model_for_registry
--   Fleet                  custom_components/apc_modbus/scan_interval_guard.py, startup_stagger.py
--   Commands               custom_components/apc_modbus/modbus_commands.py
--   Snmp                   custom_components/apc_modbus/snmp_helper.py: the answer of a query, the
--                          fetch of many and the choice among candidates; below it Numbers (the
--                          parsers of readings), Probes (the external probes), SelfTest, Models
--                          (metadata and model strings) and Commands (snmp_commands.py)
--   Entities/Descriptions  the entity descriptions in custom_components/apc_modbus/const.py,
--                          registers_smt_ups.py and registers_rack_pdu.py
--   Entities/Profiles      custom_components/apc_modbus/device_profiles.py
--   Entities/Availability  custom_components/apc_modbus/sensor_availability_unified.py and
--                          external_probe_entities.py
--   Entities/Registry      custom_components/apc_modbus/entity_defaults.py, and the expected
--                          ids and the cleanup of custom_components/apc_modbus/__init__.py
--   Entities/Sensors, Entities/Buttons
--                          what custom_components/apc_modbus/sensor.py and button.py create, and
--                          the presses
--   Entities/States        native_value of custom_components/apc_modbus/sensor.py, is_on of
--                          binary_sensor.py, and date.py
--   Entities/Switch        custom_components/apc_modbus/switch.py, and coordinator.py's
--                          async_set_keep_connection_open
--   Setup                  custom_components/apc_modbus/__init__.py, async_setup_entry, over
--                          the state and the steps of Setup/Steps
--   Setup/Settings         custom_components/apc_modbus/config_flow.py, async_step_init of the
--                          options, and the redetect button of button.py
--   Prelude                shared names, numbers, lists, dictionaries, sorting, texts
--
-- State and operations. The transport's operations are actions: functions from its state to an
-- outcome, a value or an exception, and the state behind it, so that what was done before an
-- exception stays done. The state holds the attributes of ModbusTransport, a clock in
-- milliseconds, the number of the next client call, and a trace of what was done, which the
-- theorems read. Invariants are proved once for the single steps (Transport/Keeps) and carried
-- through every operation, the poll included (Poller/Keeping).
--
-- Bounds. The loops run over the lists of blocks and registers, except for two. The loop of
-- recv_exact has the number of bytes as its fuel, which is enough because a segment has a byte at
-- least: its theorem says that it ends with the bytes or with one of Python's errors. The decimal
-- digits of a number take the number as their fuel, and its parsers end with their text. Texts are
-- lists of code points; upper and lower case, digits and white space are those below 256. A
-- decimal reading is kept exactly, as a mantissa and a number of decimals. Registers are natural
-- numbers, and a statement that needs 16 bits says so.
--
-- Not modelled: logging, elapsed times, locks and the event loop, float rounding (a quotient is
-- kept as its two numbers), the trying of client signatures, names and icons, the putting together
-- of a dump's dictionary and its file, the configuration forms, the unload of an entry, the rack
-- PDU's generators of outlet and bank registers, and coordinator.py's _legacy_async_update_data,
-- which nothing calls. The SNMP library is a parameter, an agent that answers each identifier once
-- per fetch; Home Assistant's registry is the list of the entry's entities, and the first refresh
-- of the setup an arbitrary function.
pub mod Prelude
pub mod Energy
pub mod Device
pub mod Registers
pub mod Snmp
pub mod Entities
pub mod Setup
pub mod Decode
pub mod Modbus
pub mod Wire
pub mod Diagnostics
pub mod Transport
pub mod Poller
pub mod Coordinator
pub mod Fleet
pub mod Commands
