-- ===== src/Transport/Writes.antt =====
-- A write is a command to the device: it is sent once at most, and never again.
use apc_modbus_snmp_ha.Prelude.{
  ℕ, ◌≡◌, refl, ◌∙◌, ◌⊎◌, inl, inr, Bool, true, false, List, [], ◌∷◌, arith,
}
use apc_modbus_snmp_ha.Modbus.{
  Outcome, returned, raised, runtime_error, Raised, Client, Response, write_response_valid,
}
use apc_modbus_snmp_ha.Transport.{
  Transport, Action, ◌>>=◌, raise, pure, gets, modify, branch, finally, Effect, write_sent,
  plain_error, mark_io_activity, await_reconnect_pacing, client_connect, client_write,
  close_and_mark, write_one_request, ensure_connection, write,
}
use apc_modbus_snmp_ha.Transport.Keeps.{
  Keeps, Stable, Keeps-ensure_connection, Keeps-close_and_mark,
}

-- The write requests sent, the newest first.
abbrev pub sent : List (ℕ × Effect) → List (ℕ × List ℕ)
sent [] = []
sent ((_, write_sent address words) ∷ rest) = (address, words) ∷ sent rest
sent ((_, _) ∷ rest) = sent rest

-- `m` sends no write.
record Quiet {A : Type 0} (m : Action A) : Type 0 where
  at : (t : Transport) → sent (m t).1.trace ≡ sent t.trace

module _ (request : ℕ × List ℕ) where
  -- Beside what had been sent, one request where the operation returned, and at most that one where
  -- it raised.
  abbrev pub SentOnce : {A : Type 0} → List (ℕ × List ℕ) → Outcome A → List (ℕ × List ℕ) → Type 0
  SentOnce before (returned _) after = after ≡ request ∷ before
  SentOnce before (raised _) after = (after ≡ before) ⊎ (after ≡ request ∷ before)

  record Sends {A : Type 0} (m : Action A) : Type 0 where
    at : (t : Transport) → SentOnce (sent t.trace) (m t).0 (sent (m t).1.trace)

  Sends-raise : {A : Type 0} (e : Raised) → Sends (raise {A = A} e)
  Sends-raise e = record { at = λ t. inl refl }

  module _ {A : Type 0} where
    Sends-branch : (b : Bool) (m n : Action A) → Sends m → Sends n → Sends (branch b m n)
    Sends-branch true m n sm sn = record { at = λ t. sm.at t }
    Sends-branch false m n sm sn = record { at = λ t. sn.at t }

    finished :
        (r : Outcome A) (x : Outcome Unit) (before : List (ℕ × List ℕ)) (t : Transport)
        → SentOnce before r (sent t.trace)
        → let out : Outcome A × Transport = elim x [
          | returned _ ↦ (r, t)
          | raised e ↦ (raised e, t)
        ] in
          SentOnce before out.0 (sent out.1.trace)
    finished r (returned _) before t h = h
    finished (returned _) (raised e) before t h = inr h
    finished (raised _) (raised e) before t h = h

    Sends-finally : (m : Action A) (c : Action Unit) → Sends m → Quiet c → Sends (finally m c)
    Sends-finally m c sm qc = record {
      at = λ t.
          let (r, t') = m t in
          let (x, t'') = c t' in finished r x (sent t.trace) t'' (rw (qc.at t') (sm.at t));
    }

  still_sent :
      {B : Type 0} (r : Outcome B) {before after : List (ℕ × List ℕ)}
      → after ≡ request ∷ before
      → SentOnce before r after
  still_sent (returned _) h = h
  still_sent (raised _) h = inr h

  module _ {A B : Type 0} where
    after_quiet :
        (f : A → Action B) (r : Outcome A) (before : List (ℕ × List ℕ)) (t : Transport)
        → ((a : A) → Sends (f a))
        → sent t.trace ≡ before
        → let out : Outcome B × Transport = elim r [
          | returned a ↦ f a t
          | raised e ↦ (raised e, t)
        ] in
          SentOnce before out.0 (sent out.1.trace)
    after_quiet f (returned a) before t sf h = let s = (sf a).at t in rw h at s
    after_quiet f (raised e) before t sf h = inl h

    Sends-after :
        (m : Action A) (f : A → Action B) → Quiet m → ((a : A) → Sends (f a)) → Sends (m >>= f)
    Sends-after m f qm sf = record {
      at = λ t. let (r, t') = m t in after_quiet f r (sent t.trace) t' sf (qm.at t);
    }

    then_silent :
        (f : A → Action B) (r : Outcome A) (before : List (ℕ × List ℕ)) (t : Transport)
        → ((a : A) → Quiet (f a))
        → SentOnce before r (sent t.trace)
        → let out : Outcome B × Transport = elim r [
          | returned a ↦ f a t
          | raised e ↦ (raised e, t)
        ] in
          SentOnce before out.0 (sent out.1.trace)
    then_silent f (returned a) before t qf h =
        let (r', t') = f a t in still_sent r' ((qf a).at t ∙ h)
    then_silent f (raised e) before t qf h = h

    Sends-then :
        (m : Action A) (f : A → Action B) → Sends m → ((a : A) → Quiet (f a)) → Sends (m >>= f)
    Sends-then m f sm qf = record {
      at = λ t. let (r, t') = m t in then_silent f r (sent t.trace) t' qf (sm.at t);
    }

ruleset sends_rules = (Sends-raise, Sends-branch, Sends-finally, Sends-after)

Stable-sent : (client : Client) (xs : List (ℕ × List ℕ)) → Stable client (λ t. sent t.trace ≡ xs)
unfolding mark_io_activity await_reconnect_pacing
Stable-sent client xs = record {
  called = λ t ms h. h;
  slept = λ t ms h. h;
  opened = λ t ms h. ground arith;
  closed_marked = λ t ms h. h;
  close_failed = λ t e ms c h. h;
  activity = λ t h. h;
  counted = λ t f r c h. h;
  renewed = λ t h. h;
}

module _ {A : Type 0} where
  Quiet-of :
      (m : Action A) → ((xs : List (ℕ × List ℕ)) → Keeps (λ t. sent t.trace ≡ xs) m) → Quiet m
  Quiet-of m k = record { at = λ t. (k (sent t.trace)).at t refl }

  Quiet-gets : (f : Transport → A) → Quiet (gets f)
  Quiet-gets f = record { at = λ t. refl }

  Quiet-raise : (e : Raised) → Quiet (raise {A = A} e)
  Quiet-raise e = record { at = λ t. refl }

  Quiet-pure : (a : A) → Quiet (pure a)
  Quiet-pure a = record { at = λ t. refl }

  Quiet-branch : (b : Bool) (m n : Action A) → Quiet m → Quiet n → Quiet (branch b m n)
  Quiet-branch true m n qm qn = record { at = λ t. qm.at t }
  Quiet-branch false m n qm qn = record { at = λ t. qn.at t }

Quiet-mark_io_activity : Quiet (modify mark_io_activity)
unfolding mark_io_activity
Quiet-mark_io_activity = record { at = λ t. refl }

Quiet-await : Quiet await_reconnect_pacing
unfolding await_reconnect_pacing
Quiet-await = record { at = λ t. ground arith }

Quiet-client_connect : (client : Client) → Quiet (client_connect client)
unfolding client_connect
Quiet-client_connect client = record { at = λ t. ground arith }

Quiet-close_and_mark : (client : Client) → Quiet (close_and_mark client)
Quiet-close_and_mark client = Quiet-of _ (λ xs. Keeps-close_and_mark client (Stable-sent client xs))

Quiet-ensure_connection : (client : Client) → Quiet (ensure_connection client)
Quiet-ensure_connection client =
    Quiet-of _ (λ xs. Keeps-ensure_connection client (Stable-sent client xs))

ruleset quiet_rules = (
  Quiet-gets, Quiet-raise, Quiet-pure, Quiet-branch, Quiet-mark_io_activity, Quiet-await,
  Quiet-client_connect, Quiet-close_and_mark, Quiet-ensure_connection,
)

module _ (client : Client) (address : ℕ) (words : List ℕ) where
  Sends-client_write : Sends (address, words) (client_write client address words)
  unfolding client_write
  Sends-client_write = record {
    at = λ t. still_sent (address, words) (client.write t.calls address words) refl;
  }

  Sends-write_one_request : Sends (address, words) (write_one_request client address words)
  unfolding write_one_request
  Sends-write_one_request = search (sends_rules, quiet_rules, Sends-client_write)

  request_sent :
      (b : Bool)
      → Sends
          (address, words)
          (branch b (client_write client address words) (write_one_request client address words))
  request_sent b = search (sends_rules, Sends-client_write, Sends-write_one_request)

  judged : Response → Action Unit
  judged response =
      branch (write_response_valid response address words) (modify mark_io_activity)
        (raise (plain_error runtime_error))

  Quiet-judged : (response : Response) → Quiet (judged response)
  unfolding judged
  Quiet-judged response = search quiet_rules

  acknowledged :
      (b : Bool)
      → Sends
          (address, words)
          (branch b (client_write client address words) (write_one_request client address words)
            >>= judged)
  acknowledged b = Sends-then (address, words) _ judged (request_sent b) Quiet-judged

  Sends-write : Sends (address, words) (write client address words)
  unfolding write judged
  Sends-write = search (sends_rules, quiet_rules, acknowledged) depth 12

  -- Whatever the client answers, `write` sends at most one request, the one for its address and
  -- words: exactly one more where it returns, and none or that one where it raises.
  pub write-SentOnce :
      (t : Transport)
      → SentOnce
          (address, words)
          (sent t.trace)
          (write client address words t).0
          (sent (write client address words t).1.trace)
  write-SentOnce t = Sends-write.at t
