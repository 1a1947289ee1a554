-- ===== src/Transport/Requests.antt =====
-- Counting the read requests that an action sends.
use apc_modbus_snmp_ha.Prelude.{
  ℕ, suc, ◌+◌, ◌≤◌, ◌≡◌, refl, Bool, true, false, List, [], ◌∷◌, arith,
}
use apc_modbus_snmp_ha.Modbus.{Raised, Outcome, returned, raised, Client}
use apc_modbus_snmp_ha.Transport.{
  Transport, Effect, read_sent, Action, ◌>>=◌, pure, raise, gets, modify, branch, sleep, finally,
  is_session, mark_io_activity, promote, record_failure, await_reconnect_pacing, client_connect,
  client_read, close_and_mark, read_one_request, read, reconnect, ensure_connection, close,
}
use apc_modbus_snmp_ha.Transport.Keeps.{
  Keeps, Stable, Keeps-reconnect, Keeps-ensure_connection, Keeps-close, Keeps-close_and_mark,
}

-- The read requests sent.
abbrev pub requests : List (ℕ × Effect) → ℕ
requests [] = 0
requests ((_, read_sent _ _) ∷ rest) = suc (requests rest)
requests ((_, _) ∷ rest) = requests rest

-- `m` sends `n` read requests at most.
pub record Sends (n : ℕ) {A : Type 0} (m : Action A) : Type 0 where
  pub at : (t : Transport) → requests (m t).1.trace ≤ requests t.trace + n

module _ {A : Type 0} where
  pub Sends-pure : (a : A) → Sends 0 (pure a)
  Sends-pure a = record { at = λ t. omega arith }

  pub Sends-raise : (e : Raised) → Sends 0 (raise {A = A} e)
  Sends-raise e = record { at = λ t. omega arith }

  pub Sends-gets : (f : Transport → A) → Sends 0 (gets f)
  Sends-gets f = record { at = λ t. omega arith }

  pub Sends-weaken : (n k : ℕ) (m : Action A) → Sends n m → n ≤ k → Sends k m
  Sends-weaken n k m s h = record { at = λ t. let b = s.at t in omega arith }

  pub Sends-branch :
      (n : ℕ) (b : Bool) (x y : Action A) → Sends n x → Sends n y → Sends n (branch b x y)
  Sends-branch n true x y sx sy = record { at = λ t. sx.at t }
  Sends-branch n false x y sx sy = record { at = λ t. sy.at t }

  -- what keeps every count sends nothing
  pub Sends-none : (m : Action A) → ((c : ℕ) → Keeps (λ t. requests t.trace ≡ c) m) → Sends 0 m
  Sends-none m k = record { at = λ t. let same = (k (requests t.trace)).at t refl in omega arith }

  pub Sends-finally :
      (n : ℕ) (m : Action A) (c : Action Unit) → Sends n m → Sends 0 c → Sends n (finally m c)
  Sends-finally n m c sm sc = record {
    at = λ t.
        let (r, t') = m t in
        let (x, t'') = c t' in let b = sm.at t in let d = sc.at t' in ground arith;
  }

module _ {A B : Type 0} where
  pub Sends-bind :
      (n k : ℕ) (m : Action A) (f : A → Action B)
      → Sends n m
      → ((a : A) → Sends k (f a))
      → Sends (n + k) (m >>= f)
  Sends-bind n k m f sm sf = record {
    at = λ t. let (r, t') = m t in continued r t' (requests t.trace) (sm.at t);
  }
    where
      continued :
          (r : Outcome A) (t : Transport) (c : ℕ)
          → requests t.trace ≤ c + n
          → let out : Outcome B × Transport = elim r [
            | returned a ↦ f a t
            | raised e ↦ (raised e, t)
          ] in
            requests out.1.trace ≤ c + (n + k)
      continued (returned a) t c h = let d = (sf a).at t in omega arith
      continued (raised e) t c h = omega arith

Stable-requests : (client : Client) (c : ℕ) → Stable client (λ t. requests t.trace ≡ c)
unfolding mark_io_activity await_reconnect_pacing
Stable-requests client c = record {
  called = λ t ms h. h;
  slept = λ t ms h. h;
  opened = λ t ms h. ground arith;
  closed_marked = λ t ms h. h;
  close_failed = λ t e ms c h. h;
  activity = λ t h. h;
  counted = λ t f r c h. h;
  renewed = λ t h. h;
}

pub Sends-await : Sends 0 await_reconnect_pacing
unfolding await_reconnect_pacing
Sends-await = record { at = λ t. ground arith }

pub Sends-mark_io_activity : Sends 0 (modify mark_io_activity)
unfolding mark_io_activity
Sends-mark_io_activity = record { at = λ t. omega arith }

pub Sends-record_failure : (e : Raised) → Sends 0 (modify (record_failure e))
unfolding record_failure promote
Sends-record_failure e = record { at = λ t. ground arith }

pub Sends-sleep : (ms : ℕ) → Sends 0 (sleep ms)
Sends-sleep ms = record { at = λ t. omega arith }

module _ (client : Client) where
  pub Sends-connect : Sends 0 (client_connect client)
  unfolding client_connect
  Sends-connect = record { at = λ t. ground arith }

  pub Sends-reconnect : (recreate : Bool) → Sends 0 (reconnect client recreate)
  Sends-reconnect recreate =
      Sends-none _ (λ c. Keeps-reconnect client (Stable-requests client c) recreate)

  pub Sends-ensure_connection : Sends 0 (ensure_connection client)
  Sends-ensure_connection =
      Sends-none _ (λ c. Keeps-ensure_connection client (Stable-requests client c))

  pub Sends-close : Sends 0 (close client)
  Sends-close = Sends-none _ (λ c. Keeps-close client (Stable-requests client c))

  pub Sends-close_and_mark : Sends 0 (close_and_mark client)
  Sends-close_and_mark = Sends-none _ (λ c. Keeps-close_and_mark client (Stable-requests client c))

  pub Sends-client_read : (a c : ℕ) → Sends 1 (client_read client a c)
  unfolding client_read
  Sends-client_read a c = record { at = λ t. omega arith }

  pub Sends-read_one_request : (a c : ℕ) → Sends 1 (read_one_request client a c)
  unfolding read_one_request
  Sends-read_one_request a c = Sends-bind 0 1 _ _ Sends-await (λ u.
      Sends-bind 0 1 _ _ Sends-connect (λ ok.
        Sends-branch 1 ok _ _ (Sends-finally 1 _ _ (Sends-client_read a c) Sends-close_and_mark)
          (Sends-weaken 0 1 _ (Sends-raise _) (omega arith))))

  pub Sends-read : (a c : ℕ) → Sends 1 (read client a c)
  unfolding read
  Sends-read a c = Sends-bind 0 1 _ _ (Sends-gets (λ t. t.mode)) (λ mode.
      Sends-bind 1 0 _ _
        (Sends-branch 1 (is_session mode) _ _ (Sends-client_read a c) (Sends-read_one_request a c))
        (λ r. Sends-bind 0 0 _ _ Sends-mark_io_activity (λ u. Sends-pure r)))
