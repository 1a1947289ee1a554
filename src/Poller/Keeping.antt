-- ===== src/Poller/Keeping.antt =====
-- A poll keeps what the transport's steps keep, whether it returns or raises.
use apc_modbus_snmp_ha.Prelude.{
  ℕ, ◌≡◌, refl, none, Bool, true, false, List, [], ◌∷◌, arith, if◌then◌else◌,
}
use apc_modbus_snmp_ha.Registers.{Descriptor, Block}
use apc_modbus_snmp_ha.Modbus.{ExceptionKind, Raised, Outcome, returned, raised, Client}
use apc_modbus_snmp_ha.Transport.{
  Transport, Action, modify, note, read_sent, sleep, read, reconnect, ensure_connection,
  record_failure,
}
use apc_modbus_snmp_ha.Transport.Keeps.{
  Keeps, Stable, keeps_rules, Keeps-read, Keeps-reconnect, Keeps-ensure_connection, Keeps-close,
}
use apc_modbus_snmp_ha.Transport.Promotion.{
  promotions, Stable-promotions, record_failure-promotions,
}
use apc_modbus_snmp_ha.Transport.Pacing.{KeepsGap, Stable-KeepsGap, record_failure-KeepsGap}
use apc_modbus_snmp_ha.Poller.{
  Poller, Progress, catching, retry_read, read_with_reconnect, try_block, try_blocks,
  try_block_reads, try_register, try_registers, try_individual_reads, read_blocks,
  read_individually, read_registers, end_poll, async_poll,
}

module _ {P : Transport → Type 0} {A : Type 0} where
  handled :
      (catches : ExceptionKind → Bool) (handler : Raised → Action A) (r : Outcome A) (t : Transport)
      → ((e : Raised) → Keeps P (handler e))
      → P t
      → P (
          let out : Outcome A × Transport = elim r [
            | returned a ↦ (returned a, t)
            | raised e ↦ if catches e.kind then handler e t else (raised e, t)
          ] in
          out.1)
  handled catches handler (returned a) t kh h = h
  handled catches handler (raised e) t kh h = by_test (catches e.kind)
    where
      by_test :
          (b : Bool)
          → P (let out : Outcome A × Transport = if b then handler e t else (raised e, t) in out.1)
      by_test true = (kh e).at t h
      by_test false = h

  pub Keeps-catching :
      (catches : ExceptionKind → Bool) (m : Action A) (handler : Raised → Action A)
      → Keeps P m
      → ((e : Raised) → Keeps P (handler e))
      → Keeps P (catching catches m handler)
  Keeps-catching catches m handler km kh = record {
    at = λ t h. let (r, t') = m t in handled catches handler r t' kh (km.at t h);
  }

module _ {P : Transport → Type 0} (client : Client) (stable : Stable client P)
    (read_noted : (t : Transport) (a c : ℕ) → P t → P (note (read_sent a c) t))
    (failed : (e : Raised) (t : Transport) → P t → P (record_failure e t))
    (idle_reset : (t : Transport) → P t → P (record t { last_io_monotonic = 0 })) where
  Keeps-record_failure : (e : Raised) → Keeps P (modify (record_failure e))
  Keeps-record_failure e = record { at = λ t h. failed e t h }

  Keeps-pause : (ms : ℕ) → Keeps P (sleep ms)
  Keeps-pause ms = record { at = λ t h. stable.slept t ms h }

  Keeps-reading : (a c : ℕ) → Keeps P (read client a c)
  Keeps-reading = Keeps-read client stable read_noted

  Keeps-reconnecting : (recreate : Bool) → Keeps P (reconnect client recreate)
  Keeps-reconnecting = Keeps-reconnect client stable

  Keeps-ensuring : Keeps P (ensure_connection client)
  Keeps-ensuring = Keeps-ensure_connection client stable

  ruleset read_rules = (
    keeps_rules, Keeps-catching, Keeps-reading, Keeps-reconnecting, Keeps-record_failure,
    Keeps-pause,
  )

  Keeps-retry_read : (a c : ℕ) (e : Raised) → Keeps P (retry_read client a c e)
  unfolding retry_read
  Keeps-retry_read a c e = search read_rules depth 12

  pub Keeps-read_with_reconnect : (a c : ℕ) → Keeps P (read_with_reconnect client a c)
  unfolding read_with_reconnect
  Keeps-read_with_reconnect a c = search (read_rules, Keeps-retry_read) depth 12

  Keeps-idle_reset : Keeps P (modify (λ t. record t { last_io_monotonic = 0 }))
  Keeps-idle_reset = record { at = idle_reset }

  Keeps-end_poll : Keeps P (end_poll client)
  unfolding end_poll
  Keeps-end_poll = search (read_rules, Keeps-close client stable, Keeps-idle_reset)

  module _ (poller : Poller) where
    Keeps-try_block : (b : Block) (p : Progress × ℕ) → Keeps P (try_block client poller b p)
    unfolding try_block
    Keeps-try_block b p = search (read_rules, Keeps-read_with_reconnect) depth 12

    Keeps-try_blocks :
        (bs : List Block) (p : Progress × ℕ) → Keeps P (try_blocks client poller bs p)
    unfolding try_blocks
    Keeps-try_blocks [] p = search read_rules
    Keeps-try_blocks (b ∷ rest) p = search (read_rules, Keeps-try_block, Keeps-try_blocks rest)

    Keeps-try_block_reads : (p : Progress) → Keeps P (try_block_reads client poller p)
    unfolding try_block_reads
    Keeps-try_block_reads p = search (read_rules, Keeps-try_blocks)

    Keeps-try_register :
        (d : Descriptor) (p : Progress × ℕ) → Keeps P (try_register client poller d p)
    unfolding try_register
    Keeps-try_register d p = search (read_rules, Keeps-read_with_reconnect) depth 12

    Keeps-try_registers :
        (ds : List Descriptor) (p : Progress × ℕ) → Keeps P (try_registers client poller ds p)
    unfolding try_registers
    Keeps-try_registers [] p = search read_rules
    Keeps-try_registers (d ∷ rest) p =
        search (read_rules, Keeps-try_register, Keeps-try_registers rest)

    Keeps-try_individual_reads : (p : Progress) → Keeps P (try_individual_reads client poller p)
    unfolding try_individual_reads
    Keeps-try_individual_reads p = search (read_rules, Keeps-try_registers)

    Keeps-read_blocks : Keeps P (read_blocks client poller)
    unfolding read_blocks
    Keeps-read_blocks = search (read_rules, Keeps-try_block_reads) depth 12

    Keeps-read_individually : (p : Progress) → Keeps P (read_individually client poller p)
    unfolding read_individually
    Keeps-read_individually p =
        search (read_rules, Keeps-try_block_reads, Keeps-try_individual_reads) depth 12

    Keeps-read_registers : Keeps P (read_registers client poller)
    unfolding read_registers
    Keeps-read_registers = search (read_rules, Keeps-read_blocks, Keeps-read_individually)

    pub Keeps-async_poll : (keep : Bool) → Keeps P (async_poll client poller keep)
    unfolding async_poll
    Keeps-async_poll keep =
        search (read_rules, Keeps-ensuring, Keeps-read_registers, Keeps-end_poll) depth 12

-- For a client whose `close` does not raise: whatever else it answers, and whether the poll returns or
-- raises, its connections are opened at least the configured gap after the last close before each, and the connection mode is promoted
-- and persisted once at most.
pub async_poll-KeepsGap :
    (client : Client) (poller : Poller) (keep : Bool) (gap : ℕ) (t : Transport)
    → ((n : ℕ) → client.close n ≡ none)
    → KeepsGap gap t
    → KeepsGap gap (async_poll client poller keep t).1
      × (promotions (async_poll client poller keep t).1 ≡ promotions t)
async_poll-KeepsGap client poller keep gap t closes h = (
  (Keeps-async_poll client (Stable-KeepsGap client gap closes) (λ u a c g. ground arith)
        (record_failure-KeepsGap gap) (λ u g. ground arith) poller keep).at
      t h,
  (Keeps-async_poll client (Stable-promotions client (promotions t)) (λ u a c g. g)
        (record_failure-promotions (promotions t)) (λ u g. g) poller keep).at
      t refl,
)
