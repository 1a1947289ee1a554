-- ===== src/Transport/Keeps.antt =====
-- Invariants of the transport's actions. A property that the single steps keep (`Stable`) is kept by
-- every operation that sends no write, whether it returns or raises.
use apc_modbus_snmp_ha.Prelude.{
  ℕ, ◌+◌, List, ◌≡◌, Bool, true, false, some, arith, inl, inr, Option-cases,
}
use apc_modbus_snmp_ha.Modbus.{Raised, Outcome, returned, raised, Client}
use apc_modbus_snmp_ha.Transport.{
  Transport, opened, closed, read_sent, slept, Action, pure, raise, gets, modify, branch, note,
  sleep, finally, ◌>>=◌, mark_closed, mark_io_activity, reconnect_pacing_remaining,
  await_reconnect_pacing, client_connect, client_read, client_close, close_and_mark,
  read_one_request, read, close, recreate_client, connected, reconnect, failed_connect,
  open_session, ensure_connection, renew_client, count_reconnect, count_recreate, count_failure,
  clear_failures, write_sent, client_write, write_one_request, write,
}

pub record Keeps {A : Type 0} (P : Transport → Type 0) (m : Action A) : Type 0 where
  pub at : (t : Transport) → P t → P (m t).1

module _ {P : Transport → Type 0} {A : Type 0} where
  pub Keeps-pure : (a : A) → Keeps P (pure a)
  Keeps-pure a = record { at = λ t h. h }

  pub Keeps-raise : (e : Raised) → Keeps P (raise {A = A} e)
  Keeps-raise e = record { at = λ t h. h }

  pub Keeps-gets : (f : Transport → A) → Keeps P (gets f)
  Keeps-gets f = record { at = λ t h. h }

  pub Keeps-branch : (b : Bool) (m n : Action A) → Keeps P m → Keeps P n → Keeps P (branch b m n)
  Keeps-branch true m n km kn = record { at = λ t h. km.at t h }
  Keeps-branch false m n km kn = record { at = λ t h. kn.at t h }

  pub Keeps-finally :
      (m : Action A) (c : Action Unit) → Keeps P m → Keeps P c → Keeps P (finally m c)
  Keeps-finally m c km kc = record {
    at = λ t h. let (r, t') = m t in let (x, t'') = c t' in done r x t'' (kc.at t' (km.at t h));
  }
    where
      done :
          (r : Outcome A) (x : Outcome Unit) (t'' : Transport)
          → P t''
          → P (
              let out : Outcome A × Transport = elim x [
                | returned _ ↦ (r, t'')
                | raised e ↦ (raised e, t'')
              ] in
              out.1)
      done r (returned _) t'' h = h
      done r (raised e) t'' h = h

module _ {P : Transport → Type 0} {A B : Type 0} where
  continued :
      (f : A → Action B) (r : Outcome A) (t : Transport)
      → ((a : A) → Keeps P (f a))
      → P t
      → P (
          let out : Outcome B × Transport = elim r [
            | returned a ↦ f a t
            | raised e ↦ (raised e, t)
          ] in
          out.1)
  continued f (returned a) t kf h = (kf a).at t h
  continued f (raised e) t kf h = h

  -- A bind keeps `P` from a state in which its first action does.
  pub bind_at :
      (m : Action A) (f : A → Action B) (t : Transport)
      → P (m t).1
      → ((a : A) → Keeps P (f a))
      → P ((m >>= f) t).1
  bind_at m f t h kf = let (r, t') = m t in continued f r t' kf h

  pub Keeps-bind :
      (m : Action A) (f : A → Action B) → Keeps P m → ((a : A) → Keeps P (f a)) → Keeps P (m >>= f)
  Keeps-bind m f km kf = record { at = λ t h. bind_at m f t (km.at t h) kf }

pub ruleset keeps_rules =
    (Keeps-pure, Keeps-raise, Keeps-gets, Keeps-branch, Keeps-finally, Keeps-bind)

-- `t` after one more call of the client
abbrev pub after_call : ℕ → Transport → Transport
after_call ms t = record t { calls = t.calls + 1; now = t.now + ms }

-- What the single steps keep. A connection is opened only after the pacing wait, and the time of a
-- close is noted right after it, unless the close raises.
pub record Stable (client : Client) (P : Transport → Type 0) : Type 0 where
  pub called : (t : Transport) (ms : ℕ) → P t → P (after_call ms t)
  pub slept : (t : Transport) (ms : ℕ) → P t → P (record (note (slept ms) t) { now = t.now + ms })
  pub opened :
      (t : Transport) (ms : ℕ) → P t → P (note opened (after_call ms (await_reconnect_pacing t).1))
  pub closed_marked :
      (t : Transport) (ms : ℕ) → P t → P (mark_closed (note closed (after_call ms t)))
  pub close_failed :
      (t : Transport) (e : Raised) (ms : ℕ)
      → client.close t.calls ≡ some e
      → P t
      → P (note closed (after_call ms t))
  pub activity : (t : Transport) → P t → P (mark_io_activity t)
  pub counted :
      (t : Transport) (failures reconnects recreates : ℕ)
      → P t
      → P (record t {
        connect_failures = failures;
        reconnect_count = reconnects;
        recreate_count = recreates;
      })
  pub renewed : (t : Transport) → P t → P (record t { retries = some 0 })

await_returns : (t : Transport) → (await_reconnect_pacing t).0 ≡ returned tt
unfolding await_reconnect_pacing
await_returns t = ground arith

module _ {P : Transport → Type 0} (client : Client) (stable : Stable client P) where
  Keeps-await : Keeps P await_reconnect_pacing
  unfolding await_reconnect_pacing
  Keeps-await = record {
    at = λ t h. ground (arith, stable.slept t (reconnect_pacing_remaining t) h);
  }

  -- the wait and the connect that follows it
  connect_after_wait :
      (t : Transport) → P t → P (client_connect client (await_reconnect_pacing t).1).1
  unfolding client_connect
  connect_after_wait t h =
      let t' = (await_reconnect_pacing t).1 in
      let ms = client.elapsed t'.calls in
      ground (arith, stable.opened t ms h, stable.called t' ms (Keeps-await.at t h))

  Keeps-paced :
      {A : Type 0} (f : Bool → Action A)
      → ((ok : Bool) → Keeps P (f ok))
      → Keeps P (await_reconnect_pacing >>= λ _. client_connect client >>= f)
  Keeps-paced f kf = record {
    at = λ t h.
        rw (await_returns t, ◌>>=◌)
          (bind_at (client_connect client) f (await_reconnect_pacing t).1 (connect_after_wait t h)
            kf);
  }

  Keeps-mark_io_activity : Keeps P (modify mark_io_activity)
  Keeps-mark_io_activity = record { at = λ t h. stable.activity t h }

  Keeps-client_read :
      ((t : Transport) (a c : ℕ) → P t → P (note (read_sent a c) t))
      → (a c : ℕ) → Keeps P (client_read client a c)
  unfolding client_read
  Keeps-client_read noted a c = record {
    at = λ t h. stable.called (note (read_sent a c) t) (client.elapsed t.calls) (noted t a c h);
  }

  ruleset steps = (keeps_rules, Keeps-mark_io_activity, Keeps-paced)

  pub Keeps-close_and_mark : Keeps P (close_and_mark client)
  unfolding close_and_mark client_close
  Keeps-close_and_mark = record {
    at = λ t h.
        let ms = client.elapsed t.calls in
        elim (Option-cases (client.close t.calls)) [
          | inl closes ↦ rw closes (stable.closed_marked t ms h)
          | inr (e, fails) ↦ rw fails (stable.close_failed t e ms fails h)
        ];
  }

  Keeps-read_one_request :
      ((t : Transport) (a c : ℕ) → P t → P (note (read_sent a c) t))
      → (a c : ℕ) → Keeps P (read_one_request client a c)
  unfolding read_one_request
  Keeps-read_one_request noted a c = search (steps, Keeps-client_read noted, Keeps-close_and_mark)

  pub Keeps-read :
      ((t : Transport) (a c : ℕ) → P t → P (note (read_sent a c) t))
      → (a c : ℕ) → Keeps P (read client a c)
  unfolding read
  Keeps-read noted a c = search (steps, Keeps-client_read noted, Keeps-read_one_request noted)

  pub Keeps-close : Keeps P (close client)
  unfolding close client_close
  Keeps-close = record {
    at = λ t h. ground (arith, stable.closed_marked t (client.elapsed t.calls) h);
  }

  Keeps-sleep : (ms : ℕ) → Keeps P (sleep ms)
  Keeps-sleep ms = record { at = λ t h. stable.slept t ms h }

  Keeps-renew_client : Keeps P (modify renew_client)
  Keeps-renew_client = record { at = λ t h. stable.renewed t h }

  Keeps-count_reconnect : Keeps P (modify count_reconnect)
  Keeps-count_reconnect = record { at = λ t h. stable.counted t _ _ _ h }

  Keeps-count_recreate : Keeps P (modify count_recreate)
  Keeps-count_recreate = record { at = λ t h. stable.counted t _ _ _ h }

  Keeps-count_failure : Keeps P (modify count_failure)
  Keeps-count_failure = record { at = λ t h. stable.counted t _ _ _ h }

  Keeps-clear_failures : Keeps P (modify clear_failures)
  Keeps-clear_failures = record { at = λ t h. stable.counted t _ _ _ h }

  ruleset more_steps = (
    steps, Keeps-close, Keeps-sleep, Keeps-renew_client, Keeps-count_reconnect,
    Keeps-count_recreate, Keeps-count_failure, Keeps-clear_failures,
  )

  Keeps-recreate_client : Keeps P (recreate_client client)
  unfolding recreate_client
  Keeps-recreate_client = search more_steps

  Keeps-connected : Keeps P connected
  unfolding connected
  Keeps-connected = search more_steps depth 8

  pub Keeps-reconnect : (recreate : Bool) → Keeps P (reconnect client recreate)
  unfolding reconnect
  Keeps-reconnect recreate = search (more_steps, Keeps-recreate_client, Keeps-connected) depth 8

  Keeps-failed_connect : Keeps P (failed_connect client)
  unfolding failed_connect
  Keeps-failed_connect = search (more_steps, Keeps-reconnect) depth 8

  connect_sequence : Keeps P (
      await_reconnect_pacing >>= λ _.
      client_connect client >>= λ ok. branch ok connected (failed_connect client))
  connect_sequence = search (more_steps, Keeps-connected, Keeps-failed_connect)

  Keeps-open_session : Keeps P (open_session client)
  unfolding open_session
  Keeps-open_session = record { at = λ t h. ground (arith, connect_sequence.at t h) }

  idle_sequence :
      Keeps P (reconnect client false >>= λ ok. branch ok (pure true) (reconnect client true))
  idle_sequence = search (more_steps, Keeps-reconnect)

  pub Keeps-ensure_connection : Keeps P (ensure_connection client)
  unfolding ensure_connection
  Keeps-ensure_connection = record {
    at = λ t h. ground (arith, idle_sequence.at t h, Keeps-open_session.at t h);
  }

  -- A property that the sending of a write keeps too is kept by `write`.
  Keeps-client_write :
      ((t : Transport) (a : ℕ) (ws : List ℕ) → P t → P (note (write_sent a ws) t))
      → (a : ℕ) (ws : List ℕ) → Keeps P (client_write client a ws)
  unfolding client_write
  Keeps-client_write noted a ws = record {
    at = λ t h. stable.called (note (write_sent a ws) t) (client.elapsed t.calls) (noted t a ws h);
  }

  Keeps-write_one_request :
      ((t : Transport) (a : ℕ) (ws : List ℕ) → P t → P (note (write_sent a ws) t))
      → (a : ℕ) (ws : List ℕ) → Keeps P (write_one_request client a ws)
  unfolding write_one_request
  Keeps-write_one_request noted a ws =
      search (steps, Keeps-close_and_mark, Keeps-client_write noted)

  pub Keeps-write :
      ((t : Transport) (a : ℕ) (ws : List ℕ) → P t → P (note (write_sent a ws) t))
      → (a : ℕ) (ws : List ℕ) → Keeps P (write client a ws)
  unfolding write
  Keeps-write noted a ws =
      search
        (steps, Keeps-client_write noted, Keeps-write_one_request noted, Keeps-ensure_connection)
        depth 10
