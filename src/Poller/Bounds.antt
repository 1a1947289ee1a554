-- ===== src/Poller/Bounds.antt =====
-- How many read requests a poll sends at most.
use apc_modbus_snmp_ha.Prelude.{
  ℕ, ◌+◌, ◌*◌, ◌≤◌, Bool, true, false, ◌||◌, ltb, leb, none, some, List, [], ◌∷◌, length, arith,
  if◌then◌else◌,
}
use apc_modbus_snmp_ha.Registers.{Descriptor, Block}
use apc_modbus_snmp_ha.Modbus.{
  ExceptionKind, Raised, Outcome, returned, raised, update_failed, Client,
}
use apc_modbus_snmp_ha.Transport.{
  Transport, Action, ◌>>=◌, pure, modify, branch, plain_error, read, reconnect,
}
use apc_modbus_snmp_ha.Poller.{
  Poller, Progress, no_progress, has_retry_token, same_mode, catching, retry_read,
  read_with_reconnect, try_block, try_blocks, try_block_reads, try_register, try_registers,
  try_individual_reads, read_blocks, read_individually, read_registers, end_poll, async_poll,
}
use apc_modbus_snmp_ha.Transport.Requests.{
  requests, Sends, Sends-pure, Sends-raise, Sends-gets, Sends-weaken, Sends-branch, Sends-bind,
  Sends-record_failure, Sends-sleep, Sends-reconnect, Sends-ensure_connection, Sends-close,
  Sends-read,
}

module _ {A : Type 0} where
  Sends-catching :
      (n k : ℕ) (catches : ExceptionKind → Bool) (m : Action A) (handler : Raised → Action A)
      → Sends n m
      → ((e : Raised) → Sends k (handler e))
      → Sends (n + k) (catching catches m handler)
  Sends-catching n k catches m handler sm sh = record {
    at = λ t. let (r, t') = m t in caught r t' (requests t.trace) (sm.at t);
  }
    where
      caught :
          (r : Outcome A) (t : Transport) (c : ℕ)
          → requests t.trace ≤ c + n
          → let out : Outcome A × Transport = elim r [
            | returned a ↦ (returned a, t)
            | raised e ↦ if catches e.kind then handler e t else (raised e, t)
          ] in
            requests out.1.trace ≤ c + (n + k)
      caught (returned a) t c h = omega arith
      caught (raised e) t c h = let d = (sh e).at t in ground arith

module _ (client : Client) where
  some_read : (a c : ℕ) → Sends 1 (read client a c >>= λ r. pure (some r))
  some_read a c = Sends-bind 1 0 _ _ (Sends-read client a c) (λ r. Sends-pure _)

  again :
      (b recreate : Bool)
      → Sends 0 (branch b (pure true) (branch recreate (pure false) (reconnect client true)))
  again b recreate =
      Sends-branch 0 b _ _ (Sends-pure true)
        (Sends-branch 0 recreate _ _ (Sends-pure false) (Sends-reconnect client true))

  Sends-retry_read : (a c : ℕ) (e : Raised) → Sends 1 (retry_read client a c e)
  unfolding retry_read
  Sends-retry_read a c e = Sends-bind 0 1 _ _ (Sends-record_failure e) (λ u.
      Sends-bind 0 1 _ _ (Sends-branch 0 (has_retry_token e) _ _ (Sends-pure tt) (Sends-raise e))
        (λ v. Sends-bind 0 1 _ _ (Sends-reconnect client (e.has_broken_pipe || e.has_reset)) (λ ok.
          Sends-bind 0 1 _ _ (again ok (e.has_broken_pipe || e.has_reset)) (λ b.
            Sends-branch 1 b _ _ (some_read a c)
              (Sends-weaken 0 1 _ (Sends-pure none) (omega arith))))))

  -- One register or block is asked for twice at most, whatever fails.
  pub Sends-read_with_reconnect : (a c : ℕ) → Sends 2 (read_with_reconnect client a c)
  unfolding read_with_reconnect
  Sends-read_with_reconnect a c = Sends-catching 1 1 _ _ _ (some_read a c) (Sends-retry_read a c)

  Sends-idle_reset : Sends 0 (modify (λ t. record t { last_io_monotonic = 0 }))
  Sends-idle_reset = record { at = λ t. omega arith }

  Sends-end_poll : Sends 0 (end_poll client)
  unfolding end_poll
  Sends-end_poll = Sends-bind 0 0 _ _ (Sends-close client) (λ u. Sends-idle_reset)

  module _ (poller : Poller) where
    Sends-try_block : (b : Block) (p : Progress × ℕ) → Sends 2 (try_block client poller b p)
    unfolding try_block
    Sends-try_block b p =
        Sends-bind 0 2 _ _
          (Sends-branch 0 (ltb 0 poller.inter_block_delay) _ _
            (Sends-sleep poller.inter_block_delay) (Sends-pure tt))
          (λ u.
            Sends-catching 2 0 _ _ _
              (Sends-bind 2 0 _ _ (Sends-read_with_reconnect _ _) (λ r. Sends-pure _))
              (λ e. Sends-pure _))

    Sends-try_blocks :
        (bs : List Block) (p : Progress × ℕ) → Sends (2 * length bs) (try_blocks client poller bs p)
    unfolding try_blocks
    Sends-try_blocks [] p = Sends-pure p
    Sends-try_blocks (b ∷ rest) p =
        Sends-weaken (2 + 2 * length rest) _ _
          (Sends-bind 2 _ _ _ (Sends-try_block b p) (Sends-try_blocks rest)) (omega arith)

    Sends-try_block_reads :
        (p : Progress) → Sends (2 * length poller.register_blocks) (try_block_reads client poller p)
    unfolding try_block_reads
    Sends-try_block_reads p =
        Sends-weaken _ _ _ (Sends-bind _ 0 _ _ (Sends-try_blocks _ _) (λ q. Sends-pure _))
          (omega arith)

    Sends-try_register :
        (d : Descriptor) (p : Progress × ℕ) → Sends 2 (try_register client poller d p)
    unfolding try_register
    Sends-try_register d p =
        Sends-catching 2 0 _ _ _
          (Sends-bind 2 0 _ _ (Sends-read_with_reconnect _ _) (λ r. Sends-pure _))
          (λ e. Sends-pure _)

    Sends-try_registers :
        (ds : List Descriptor) (p : Progress × ℕ)
        → Sends (2 * length ds) (try_registers client poller ds p)
    unfolding try_registers
    Sends-try_registers [] p = Sends-pure p
    Sends-try_registers (d ∷ rest) p =
        Sends-weaken (2 + 2 * length rest) _ _
          (Sends-bind 2 _ _ _ (Sends-try_register d p) (λ q.
            Sends-branch _ (leb 5 q.1) _ _ (Sends-weaken 0 _ _ (Sends-pure q) (omega arith))
              (Sends-try_registers rest q)))
          (omega arith)

    Sends-try_individual_reads :
        (p : Progress) → Sends (2 * length poller.registers) (try_individual_reads client poller p)
    unfolding try_individual_reads
    Sends-try_individual_reads p =
        Sends-weaken _ _ _ (Sends-bind _ 0 _ _ (Sends-try_registers _ _) (λ q. Sends-pure _))
          (omega arith)

    Sends-read_blocks : Sends (4 * length poller.register_blocks) (read_blocks client poller)
    unfolding read_blocks
    Sends-read_blocks =
        let n = 2 * length poller.register_blocks in
        Sends-weaken (0 + (n + (0 + n))) _ _
          (Sends-bind 0 _ _ _ (Sends-gets (λ t. t.mode)) (λ before.
            Sends-bind n _ _ _ (Sends-try_block_reads no_progress) (λ first.
              Sends-bind 0 n _ _ (Sends-gets (λ t. t.mode)) (λ after.
                Sends-branch n (same_mode after before) _ _
                  (Sends-weaken 0 n _ (Sends-pure first) (omega arith))
                  (Sends-try_block_reads no_progress)))))
          (omega arith)

    again_individually :
        (p : Progress × Bool)
        → Sends
            (2 * length poller.registers)
            (branch p.1 (pure p.0) (try_individual_reads client poller p.0))
    again_individually p =
        Sends-branch _ p.1 _ _ (Sends-weaken 0 _ _ (Sends-pure p.0) (omega arith))
          (Sends-try_individual_reads _)

    Sends-read_individually :
        (p : Progress)
        → Sends
            (2 * length poller.register_blocks + 4 * length poller.registers)
            (read_individually client poller p)
    unfolding read_individually
    Sends-read_individually p =
        let n = 2 * length poller.register_blocks in
        let k = 2 * length poller.registers in
        Sends-weaken (0 + (k + (0 + (n + k)))) _ _
          (Sends-bind 0 _ _ _ (Sends-gets (λ t. t.mode)) (λ before.
            Sends-bind k _ _ _ (Sends-try_individual_reads _) (λ q.
              Sends-bind 0 (n + k) _ _ (Sends-gets (λ t. t.mode)) (λ after.
                Sends-branch (n + k) (same_mode after before) _ _
                  (Sends-weaken 0 (n + k) _ (Sends-pure q) (omega arith))
                  (Sends-bind n k _ _ (Sends-try_block_reads no_progress) again_individually)))))
          (omega arith)

    Sends-read_registers :
        Sends
          (6 * length poller.register_blocks + 4 * length poller.registers)
          (read_registers client poller)
    unfolding read_registers
    Sends-read_registers =
        let n = length poller.register_blocks in
        let k = length poller.registers in
        Sends-weaken (4 * n + (2 * n + 4 * k)) _ _
          (Sends-bind (4 * n) (2 * n + 4 * k) _ _ Sends-read_blocks (λ p.
            Sends-branch (2 * n + 4 * k) p.1 _ _
              (Sends-weaken 0 (2 * n + 4 * k) _ (Sends-pure p.0) (omega arith))
              (Sends-read_individually _)))
          (omega arith)

    Sends-async_poll :
        (keep : Bool)
        → Sends
            (6 * length poller.register_blocks + 4 * length poller.registers)
            (async_poll client poller keep)
    unfolding async_poll
    Sends-async_poll keep =
        let n = 6 * length poller.register_blocks + 4 * length poller.registers in
        Sends-weaken (0 + (0 + (n + (0 + 0)))) _ _
          (Sends-bind 0 _ _ _ (Sends-ensure_connection client) (λ ok.
            Sends-bind 0 _ _ _
              (Sends-branch 0 ok _ _ (Sends-pure tt) (Sends-raise (plain_error update_failed)))
              (λ u. Sends-bind n 0 _ _ Sends-read_registers (λ result.
                Sends-bind 0 0 _ _ (Sends-branch 0 keep _ _ (Sends-pure tt) Sends-end_poll)
                  (λ v. Sends-pure result)))))
          (omega arith)

    -- However the device and the connection fail, a poll of `b` blocks and `r` registers sends
    -- `6 * b + 4 * r` read requests at most.
    pub async_poll-requests :
        (keep : Bool) (t : Transport)
        → requests (async_poll client poller keep t).1.trace
          ≤ requests t.trace + (6 * length poller.register_blocks + 4 * length poller.registers)
    async_poll-requests keep t = (Sends-async_poll keep).at t
