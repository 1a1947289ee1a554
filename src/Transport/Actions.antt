-- ===== src/Transport/Actions.antt =====
-- The transport's state, and actions on it that may raise: what was done before an exception stays
-- done, so the state comes back beside it.
use apc_modbus_snmp_ha.Prelude.{ℕ, ◌+◌, Bool, true, false, Option, List, ◌∷◌, if◌then◌else◌}
use apc_modbus_snmp_ha.Modbus.{ExceptionKind, Raised, Outcome, returned, raised, Client}

pub data Mode : Type 0 where
  session one_request_per_connection : Mode

abbrev pub is_session : Mode → Bool
is_session session = true
is_session one_request_per_connection = false

pub data Effect : Type 0 where
  opened : Effect
  read_sent : ℕ → ℕ → Effect
  write_sent : ℕ → List ℕ → Effect
  closed : Effect
  slept : ℕ → Effect
  mode_persisted : Mode → Effect

pub record Transport : Type 0 where
  pub mode : Mode
  pub session_request_succeeded : Bool
  pub promotion_reason : Option ExceptionKind
  pub keep_connection_open : Bool
  pub same_endpoint_entries : ℕ
  pub idle_reconnect : ℕ
  pub connect_failures : ℕ
  pub last_io_monotonic : ℕ
  pub reconnect_count : ℕ
  pub recreate_count : ℕ
  pub post_connect_delay : ℕ
  pub min_reconnect_delay : ℕ
  pub last_close_monotonic : ℕ
  pub retries : Option ℕ
  pub now : ℕ
  pub calls : ℕ
  pub trace : List (ℕ × Effect)

abbrev pub Action : Type 0 → Type 0
Action A = Transport → Outcome A × Transport

infixl 5 ◌>>=◌ ◌>>◌
abbrev pub ◌>>=◌ : {A B : Type 0} → Action A → (A → Action B) → Action B
◌>>=◌ m f t = let (r, t') = m t in elim r [ returned a ↦ f a t' | raised e ↦ (raised e, t') ]

abbrev pub ◌>>◌ : {A B : Type 0} → Action A → Action B → Action B
m >> k = m >>= λ _. k

module _ {A : Type 0} where
  abbrev pub pure : A → Action A
  pure a t = (returned a, t)

  abbrev pub raise : Raised → Action A
  raise e t = (raised e, t)

  abbrev pub gets : (Transport → A) → Action A
  gets f t = (returned (f t), t)

-- `if b: … else: …` on actions
abbrev pub branch : {A : Type 0} → Bool → Action A → Action A → Action A
branch b m n t = if b then m t else n t

abbrev pub modify : (Transport → Transport) → Action (Unit {0})
modify f t = (returned tt, f t)

-- Note an effect at the present time.
abbrev pub note : Effect → Transport → Transport
note e t = record t { trace = (t.now, e) ∷ t.trace }

-- One call of the client: its time passes, and it has a number.
abbrev pub call : {A : Type 0} → Client → (ℕ → Outcome A) → Action A
call client answer t =
    (answer t.calls, record t { calls = t.calls + 1; now = t.now + client.elapsed t.calls })

abbrev pub sleep : ℕ → Action (Unit {0})
sleep ms t = (returned tt, record (note (slept ms) t) { now = t.now + ms })

-- `try: m finally: cleanup`: an exception of the cleanup replaces what `m` did.
abbrev pub finally : {A : Type 0} → Action A → Action (Unit {0}) → Action A
finally m cleanup t =
    let (r, t') = m t in
    let (c, t'') = cleanup t' in elim c [ returned _ ↦ (r, t'') | raised e ↦ (raised e, t'') ]
