-- ===== src/Poller/Serving.antt =====
-- A poll through a client that answers every read from the device's memory.
use apc_modbus_snmp_ha.Prelude.{
  ℕ, suc, ◌+◌, ◌≡◌, refl, inl, Bool, true, false, Option, none, some, List, [], ◌∷◌, length, arith,
}
use apc_modbus_snmp_ha.Prelude.Dict.{lookup}
use apc_modbus_snmp_ha.Registers.{Block}
use apc_modbus_snmp_ha.Modbus.{
  ExceptionKind, update_failed, Raised, returned, Client, Response, is_error_response,
}
use apc_modbus_snmp_ha.Transport.{
  Transport, Mode, Action, ◌>>=◌, ◌>>◌, pure, branch, gets, raise, plain_error,
  is_connection_failure,
}
use apc_modbus_snmp_ha.Transport.Answers.{
  Returns, IsServing, returns_rules, Returns-pure, Returns-bind, Returns-branch, Returns-gets,
  Returns-true, Returns-read, Returns-close, Returns-ensure_connection,
}
use apc_modbus_snmp_ha.Poller.{
  Poller, Progress, no_progress, decode_block, catching, is_block_failure, take_block,
  read_with_reconnect, retry_read, try_block, try_blocks, try_block_reads, are_blocks_ok, same_mode,
  read_blocks, read_individually, read_registers, end_poll, async_poll,
}
use apc_modbus_snmp_ha.Poller.Readings.{words, IsRegisterMap, IsSound}
use apc_modbus_snmp_ha.Poller.Memory.{decoded, decoded_lem, IsLaidOut, AreDone}

-- The response that holds the words of the memory.
abbrev pub from_memory : (ℕ → ℕ) → ℕ → ℕ → Response
from_memory memory a c = record {
  error_method = some false;
  registers = some (words memory a c);
  exception_code = none;
  function_code = none;
  address = none;
  count = none;
  value = none;
}

module _ {A : Type 0} where
  Returns-catching :
      (a : A) (catches : ExceptionKind → Bool) (m : Action A) (handler : Raised → Action A)
      → Returns a m
      → Returns a (catching catches m handler)
  Returns-catching a catches m handler rm = record {
    at = λ t. let (r, t') = m t in let h = rm.at t in ground arith;
  }

module _ (memory : ℕ → ℕ) (client : Client) (serving : IsServing (from_memory memory) client) where
  wrapped :
      (a c : ℕ) (r : Response)
      → r ≡ from_memory memory a c
      → Returns (some (from_memory memory a c)) (pure (some r))
  wrapped a c r e = rw e (Returns-pure _)

  Returns-read_with_reconnect :
      (a c : ℕ) → Returns (some (from_memory memory a c)) (read_with_reconnect client a c)
  unfolding read_with_reconnect
  Returns-read_with_reconnect a c =
      Returns-catching _ is_connection_failure _ (retry_read client a c)
        (Returns-bind (from_memory memory a c) _ _ _ (Returns-read serving a c) (wrapped a c))

  module _ (poller : Poller) where
    abbrev step : Block → Progress × ℕ → Progress × ℕ
    step b (p, n) = (decode_block poller (words memory b.start_address b.count) b p, n + 1)

    taken :
        (b : Block) (q : Progress × ℕ) (r : Option Response)
        → r ≡ some (from_memory memory b.start_address b.count)
        → Returns (step b q) (pure (take_block poller b r (q.0, q.1)))
    unfolding is_error_response
    taken b q r e = rw e (Returns-pure _)

    block_read :
        (b : Block) (q : Progress × ℕ) (handler : Raised → Action (Progress × ℕ))
        → Returns (step b q) (
            catching is_block_failure
              (read_with_reconnect client b.start_address b.count >>= λ r.
                pure (take_block poller b r (q.0, q.1)))
              handler)
    block_read b q handler = Returns-catching _ is_block_failure _ handler (
        Returns-bind (some (from_memory memory b.start_address b.count)) _ _ _
          (Returns-read_with_reconnect b.start_address b.count) (taken b q))

    Returns-try_block :
        (b : Block) (q : Progress × ℕ) → Returns (step b q) (try_block client poller b q)
    unfolding try_block
    Returns-try_block b q = search (returns_rules, block_read)

    counted : ℕ → List Block → Progress → Progress × ℕ
    counted n blocks p = (decoded memory poller blocks p, n + length blocks)

    Returns-try_blocks :
        (blocks : List Block) (p : Progress) (n : ℕ)
        → Returns (counted n blocks p) (try_blocks client poller blocks (p, n))
    unfolding try_blocks decoded counted
    Returns-try_blocks [] p n = let same : n + 0 ≡ n = omega arith in rw same (Returns-pure _)
    Returns-try_blocks (b ∷ rest) p n =
        let q = decode_block poller (words memory b.start_address b.count) b p in
        let same : n + suc (length rest) ≡ (n + 1) + length rest = omega arith in
        rw same (
          Returns-bind (q, n + 1) _ _ (try_blocks client poller rest) (Returns-try_block b (p, n))
            (λ x e. rw e (Returns-try_blocks rest q (n + 1))))

    -- what the whole poll reads, and that no error comes with it
    whole : Progress
    whole = decoded memory poller poller.register_blocks no_progress

    verdict : Progress × Bool
    verdict = (whole, true)

    module _ (no_errors : whole.errors ≡ []) where
      all_ok : are_blocks_ok client poller (counted 0 poller.register_blocks no_progress) ≡ true
      unfolding counted whole
      all_ok = ground (arith, no_errors)

      judged :
          (q : Progress × ℕ)
          → q ≡ counted 0 poller.register_blocks no_progress
          → Returns verdict (pure (q.0, are_blocks_ok client poller q))
      unfolding counted whole verdict
      judged q e = rw (e, all_ok) (Returns-pure _)

      Returns-try_block_reads : Returns verdict (try_block_reads client poller no_progress)
      unfolding try_block_reads
      Returns-try_block_reads =
          Returns-bind _ _ _ _ (Returns-try_blocks poller.register_blocks no_progress 0) judged

      kept : (q : Progress × Bool) → q ≡ verdict → Returns verdict (pure q)
      kept q e = rw e (Returns-pure _)

      same_again :
          (before : Mode) (first : Progress × Bool)
          → first ≡ verdict
          → Returns verdict (
              gets (λ t. t.mode) >>= λ after.
              branch
                (same_mode after before)
                (pure first)
                (try_block_reads client poller no_progress))
      same_again before first e =
          Returns-gets verdict (λ t. t.mode) _
            (λ after.
              Returns-branch verdict (same_mode after before) _ _ (kept first e)
                Returns-try_block_reads)

      Returns-read_blocks : Returns verdict (read_blocks client poller)
      unfolding read_blocks
      Returns-read_blocks =
          Returns-gets verdict (λ t. t.mode) _
            (λ before. Returns-bind verdict verdict _ _ Returns-try_block_reads (same_again before))

      good_blocks :
          (q : Progress × Bool)
          → q ≡ verdict
          → Returns whole (branch q.1 (pure q.0) (read_individually client poller q.0))
      unfolding verdict
      good_blocks q e = rw e (
          Returns-true whole true _ (read_individually client poller whole) refl
            (Returns-pure whole))

      Returns-read_registers : Returns whole (read_registers client poller)
      unfolding read_registers
      Returns-read_registers = Returns-bind verdict whole _ _ Returns-read_blocks good_blocks

      Returns-end_poll : Returns tt (end_poll client)
      unfolding end_poll
      Returns-end_poll = let k = Returns-close serving.opens in search (returns_rules, k)

      ended :
          (keep : Bool) (q : Progress)
          → q ≡ whole
          → Returns whole (branch keep (pure tt) (end_poll client) >> pure q)
      ended keep q e = rw e (search (returns_rules, Returns-end_poll))

      polled :
          (keep : Bool)
          → Returns whole (
              read_registers client poller >>= λ q.
              branch keep (pure tt) (end_poll client) >> pure q)
      polled keep = Returns-bind whole whole _ _ Returns-read_registers (ended keep)

      guarded :
          (keep ok : Bool)
          → ok ≡ true
          → Returns whole (
              branch ok (pure tt) (raise (plain_error update_failed)) >>= λ u.
              read_registers client poller >>= λ q.
              branch keep (pure tt) (end_poll client) >> pure q)
      guarded keep ok h = search (returns_rules, polled)

      Returns-async_poll : (keep : Bool) → Returns whole (async_poll client poller keep)
      unfolding async_poll
      Returns-async_poll keep =
          Returns-bind true whole _ _ (Returns-ensure_connection serving.opens) (guarded keep)

-- A poll of a device that answers from its memory returns without errors, in either connection mode
-- and from any state, and gives every register of its blocks the value that reading that register
-- by itself would give: block reads change nothing, where the blocks hold their registers.
pub async_poll-reads :
    (memory : ℕ → ℕ) (client : Client) (poller : Poller) (keep : Bool) (t : Transport)
    → IsServing (from_memory memory) client
    → IsRegisterMap poller.register_map
    → IsLaidOut poller.register_map poller.register_blocks
    → (p : Progress) × ((async_poll client poller keep t).0 ≡ returned p)
      × (p.errors ≡ [])
      × AreDone memory poller.register_map poller.register_blocks p
unfolding whole lookup
async_poll-reads memory client poller keep t serving is_map laid =
    let start : IsSound memory poller.register_map no_progress = record {
      no_errors = refl;
      own = λ a d h. inl refl;
    } in
    let read = decoded_lem memory poller is_map poller.register_blocks no_progress laid start in
    (
      decoded memory poller poller.register_blocks no_progress,
      (Returns-async_poll memory client serving poller read.0.no_errors keep).at t,
      read.0.no_errors,
      read.1,
    )
