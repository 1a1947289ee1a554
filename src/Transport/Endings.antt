-- ===== src/Transport/Endings.antt =====
-- Actions on the transport by what they return or raise, from every state.
use apc_modbus_snmp_ha.Prelude.{ℕ, ◌≡◌, refl, Bool, true, false, arith}
use apc_modbus_snmp_ha.Modbus.{Outcome, Raised, returned, raised, Client, Response}
use apc_modbus_snmp_ha.Transport.{
  Transport, Action, ◌>>=◌, ◌>>◌, pure, gets, modify, branch, sleep, finally,
  await_reconnect_pacing, client_read,
}

-- `m` returns `a` from every state.
pub record Returns {A : Type 0} (a : A) (m : Action A) : Type 0 where
  pub at : (t : Transport) → (m t).0 ≡ returned a

module _ {A : Type 0} where
  pub Returns-pure : (a : A) → Returns a (pure a)
  Returns-pure a = record { at = λ t. refl }

  pub Returns-branch :
      (a : A) (b : Bool) (m n : Action A) → Returns a m → Returns a n → Returns a (branch b m n)
  Returns-branch a true m n rm rn = record { at = λ t. rm.at t }
  Returns-branch a false m n rm rn = record { at = λ t. rn.at t }

  -- the branch of a test that is known
  pub Returns-true :
      (a : A) (b : Bool) (m n : Action A) → b ≡ true → Returns a m → Returns a (branch b m n)
  Returns-true a b m n h rm = record { at = λ t. let k = rm.at t in ground arith }

  pub Returns-finally :
      (a : A) (m : Action A) (c : Action Unit)
      → Returns a m
      → Returns tt c
      → Returns a (finally m c)
  Returns-finally a m c rm rc = record {
    at = λ t. let (r, t') = m t in let h = rm.at t in let k = rc.at t' in ground arith;
  }

module _ {A B : Type 0} where
  pub Returns-bind :
      (a : A) (b : B) (m : Action A) (f : A → Action B)
      → Returns a m
      → ((x : A) → x ≡ a → Returns b (f x))
      → Returns b (m >>= f)
  Returns-bind a b m f rm rf = record { at = λ t. let (r, t') = m t in continued r t' (rm.at t) }
    where
      continued :
          (r : Outcome A) (t : Transport)
          → r ≡ returned a
          → let out : Outcome B × Transport = elim r [
            | returned x ↦ f x t
            | raised e ↦ (raised e, t)
          ] in
            out.0 ≡ returned b
      continued r t h = rw h ((rf a refl).at t)

  -- whatever the first action reads from the state
  pub Returns-gets :
      (b : B) (g : Transport → A) (f : A → Action B)
      → ((x : A) → Returns b (f x))
      → Returns b (gets g >>= f)
  Returns-gets b g f rf = record { at = λ t. (rf (g t)).at t }

-- behind a step that returns nothing, and behind a test that is passed
pub Returns-then :
    {B : Type 0} (b : B) (m : Action (Unit {0})) (f : Unit {0} → Action B)
    → Returns tt m
    → ((u : Unit {0}) → Returns b (f u))
    → Returns b (m >>= f)
Returns-then b m f rm rf = Returns-bind tt b m f rm (λ u e. rf u)

pub Returns-check :
    {B : Type 0} (b : B) (m : Action Bool) (f : Bool → Action B)
    → Returns true m
    → ((ok : Bool) → ok ≡ true → Returns b (f ok))
    → Returns b (m >>= f)
Returns-check b m f rm rf = Returns-bind true b m f rm rf

pub Returns-modify : (f : Transport → Transport) → Returns tt (modify f)
Returns-modify f = record { at = λ t. refl }

pub Returns-sleep : (ms : ℕ) → Returns tt (sleep ms)
Returns-sleep ms = record { at = λ t. refl }

pub Returns-await : Returns tt await_reconnect_pacing
unfolding await_reconnect_pacing
Returns-await = record { at = λ t. ground arith }

pub ruleset returns_rules = (
  Returns-pure, Returns-true, Returns-branch, Returns-finally, Returns-gets, Returns-then,
  Returns-check, Returns-modify, Returns-sleep,
)

-- `m` ends with `r`, returned or raised, from every state.
pub record Ends {A : Type 0} (r : Outcome A) (m : Action A) : Type 0 where
  pub at : (t : Transport) → (m t).0 ≡ r

module _ {A : Type 0} where
  pub Ends-branch :
      (r : Outcome A) (b : Bool) (m n : Action A) → Ends r m → Ends r n → Ends r (branch b m n)
  Ends-branch r true m n hm hn = record { at = λ t. hm.at t }
  Ends-branch r false m n hm hn = record { at = λ t. hn.at t }

  pub Ends-finally :
      (r : Outcome A) (m : Action A) (c : Action Unit)
      → Ends r m
      → Returns tt c
      → Ends r (finally m c)
  Ends-finally r m c hm hc = record {
    at = λ t. let (s, t') = m t in let h = hm.at t in let k = hc.at t' in ground arith;
  }

module _ {A B : Type 0} where
  pub Ends-bind :
      (a : A) (r : Outcome B) (m : Action A) (f : A → Action B)
      → Returns a m
      → Ends r (f a)
      → Ends r (m >>= f)
  Ends-bind a r m f hm hf = record {
    at = λ t. let (s, t') = m t in let h = hm.at t in let k = hf.at t' in continued s t' h k;
  }
    where
      continued :
          (s : Outcome A) (t : Transport)
          → s ≡ returned a
          → (f a t).0 ≡ r
          → let out : Outcome B × Transport = elim s [
            | returned x ↦ f x t
            | raised e ↦ (raised e, t)
          ] in
            out.0 ≡ r
      continued s t h k = rw h k

  pub Ends-then :
      (a : A) (r : Outcome B) (m : Action A) (k : Action B)
      → Returns a m
      → Ends r k
      → Ends r (m >> k)
  Ends-then a r m k hm hk = Ends-bind a r m (λ _. k) hm hk

  -- an exception passes what follows
  pub Ends-raised :
      (e : Raised) (m : Action A) (f : A → Action B) → Ends (raised e) m → Ends (raised e) (m >>= f)
  Ends-raised e m f hm = record { at = λ t. let (s, t') = m t in passed s t' (hm.at t) }
    where
      passed :
          (s : Outcome A) (t : Transport)
          → s ≡ raised e
          → let out : Outcome B × Transport = elim s [
            | returned x ↦ f x t
            | raised e ↦ (raised e, t)
          ] in
            out.0 ≡ raised e
      passed s t h = rw h refl

pub Ends-client_read :
    (client : Client) (r : Outcome Response) (a c : ℕ)
    → ((n : ℕ) → client.read n a c ≡ r)
    → Ends r (client_read client a c)
unfolding client_read
Ends-client_read client r a c h = record { at = λ t. h t.calls }
