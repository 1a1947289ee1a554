-- ===== src/Coordinator/Identity/Capabilities.antt =====
-- The capabilities that are discovered on a device that answers in the same way each time.
use apc_modbus_snmp_ha.Prelude.{
  ℕ, String, ◌≡◌, refl, ap, ◌∙◌, true, false, Option, none, some, List, [], ◌∷◌, All, str_eq,
  if◌then◌else◌, arith,
}
use apc_modbus_snmp_ha.Prelude.Dict.{Dict, lookup, insert, lookup-insert}
use apc_modbus_snmp_ha.Modbus.{Outcome, Response, returned, raised, Client}
use apc_modbus_snmp_ha.Transport.{Transport}
use apc_modbus_snmp_ha.Transport.Answers.{Returns, Returns-bind, Returns-pure, Ends}
use apc_modbus_snmp_ha.Coordinator.Detection.{run_read_request}
use apc_modbus_snmp_ha.Coordinator.Detection.Probing.{IsHandled}
use apc_modbus_snmp_ha.Coordinator.Detection.Serving.{IsSteady, run_read_request-Ends}
use apc_modbus_snmp_ha.Coordinator.Identity.{
  capability_regs, capability_value, read_capability, read_capabilities,
  async_discover_capabilities,
}

-- The capability of a read: the first register of a response that is no error.
abbrev pub found : Outcome Response → Option ℕ
found (returned result) = capability_value result
found (raised _) = none

abbrev keep : String → Option ℕ → Dict ℕ → Dict ℕ
keep name none capabilities = capabilities
keep name (some r) capabilities = insert name r capabilities

read_capability-Returns :
    (client : Client) (name : String) (address : ℕ) (capabilities : Dict ℕ) (r : Outcome Response)
    → IsHandled r
    → Ends r (run_read_request client address 1)
    → Returns (keep name (found r) capabilities) (read_capability client name address capabilities)
unfolding read_capability
read_capability-Returns client name address capabilities (returned x) handled h = record {
  at = λ t. let k = h.at t in ground arith;
}
read_capability-Returns client name address capabilities (raised x) handled h = record {
  at = λ t. let k = h.at t in ground arith;
}

-- All rounds, by what the reads find
abbrev kept : (ℕ → Option ℕ) → List (String × ℕ) → Dict ℕ → Dict ℕ
kept values [] capabilities = capabilities
kept values ((name, address) ∷ rest) capabilities =
    kept values rest (keep name (values address) capabilities)

module _ (reads : ℕ → ℕ → Outcome Response) (client : Client) (steady : IsSteady reads client) where
  abbrev values : ℕ → Option ℕ
  values address = found (reads address 1)

  Returns-read_capabilities :
      (regs : List (String × ℕ)) (capabilities : Dict ℕ)
      → Returns (kept values regs capabilities) (read_capabilities client regs capabilities)
  unfolding read_capabilities
  Returns-read_capabilities [] capabilities = Returns-pure capabilities
  Returns-read_capabilities ((name, address) ∷ rest) capabilities =
      let next = keep name (values address) capabilities in
      Returns-bind next (kept values rest next) _ (read_capabilities client rest)
        (read_capability-Returns client name address capabilities (reads address 1)
          (steady.handled address 1) (run_read_request-Ends reads client 0 steady address 1))
        (λ x same. rw same (Returns-read_capabilities rest next))

  Returns-async_discover_capabilities :
      Returns (kept values capability_regs []) (async_discover_capabilities client)
  unfolding async_discover_capabilities
  Returns-async_discover_capabilities = Returns-read_capabilities capability_regs []

lookup-keep_other :
    (n j : String) (o : Option ℕ) (c : Dict ℕ)
    → str_eq n j ≡ false
    → lookup j (keep n o c) ≡ lookup j c
lookup-keep_other n j none c e = refl
lookup-keep_other n j (some r) c e =
    lookup-insert n j r c ∙ ap (λ b. if b then some r else lookup j c) e

lookup-keep_self :
    (n : String) (o : Option ℕ) (c : Dict ℕ)
    → str_eq n n ≡ true
    → lookup n c ≡ none
    → lookup n (keep n o c) ≡ o
lookup-keep_self n none c e h = h
lookup-keep_self n (some r) c e h =
    lookup-insert n n r c ∙ ap (λ b. if b then some r else lookup n c) e

-- Each name has what its own read found.
abbrev pub IsFound : (ℕ → Option ℕ) → Dict ℕ → Type 0
IsFound values capabilities =
    All (λ entry. lookup entry.0 capabilities ≡ values entry.1) capability_regs

kept-IsFound : (values : ℕ → Option ℕ) → IsFound values (kept values capability_regs [])
unfolding lookup
kept-IsFound values = (
  lookup-keep_other "num_metered_outlets" "num_phases" (values 0x00A2) _ refl
      ∙ lookup-keep_other "num_outlets" "num_phases" (values 0x00A1) _ refl
      ∙ lookup-keep_other "num_banks" "num_phases" (values 0x00A0) _ refl
      ∙ lookup-keep_other "num_metered_phases" "num_phases" (values 0x009F) _ refl
      ∙ lookup-keep_self "num_phases" (values 0x009E) _ refl (refl),
  (
    lookup-keep_other "num_metered_outlets" "num_metered_phases" (values 0x00A2) _ refl
        ∙ lookup-keep_other "num_outlets" "num_metered_phases" (values 0x00A1) _ refl
        ∙ lookup-keep_other "num_banks" "num_metered_phases" (values 0x00A0) _ refl
        ∙ lookup-keep_self "num_metered_phases" (values 0x009F) _ refl
            (lookup-keep_other "num_phases" "num_metered_phases" (values 0x009E) _ refl ∙ refl),
    (
      lookup-keep_other "num_metered_outlets" "num_banks" (values 0x00A2) _ refl
          ∙ lookup-keep_other "num_outlets" "num_banks" (values 0x00A1) _ refl
          ∙ lookup-keep_self "num_banks" (values 0x00A0) _ refl (
              lookup-keep_other "num_metered_phases" "num_banks" (values 0x009F) _ refl
              ∙ lookup-keep_other "num_phases" "num_banks" (values 0x009E) _ refl
              ∙ refl),
      (
        lookup-keep_other "num_metered_outlets" "num_outlets" (values 0x00A2) _ refl
            ∙ lookup-keep_self "num_outlets" (values 0x00A1) _ refl (
                lookup-keep_other "num_banks" "num_outlets" (values 0x00A0) _ refl
                ∙ lookup-keep_other "num_metered_phases" "num_outlets" (values 0x009F) _ refl
                ∙ lookup-keep_other "num_phases" "num_outlets" (values 0x009E) _ refl
                ∙ refl),
        (
          lookup-keep_self "num_metered_outlets" (values 0x00A2) _ refl (
              lookup-keep_other "num_outlets" "num_metered_outlets" (values 0x00A1) _ refl
              ∙ lookup-keep_other "num_banks" "num_metered_outlets" (values 0x00A0) _ refl
              ∙ lookup-keep_other "num_metered_phases" "num_metered_outlets" (values 0x009F) _ refl
              ∙ lookup-keep_other "num_phases" "num_metered_outlets" (values 0x009E) _ refl
              ∙ refl),
          tt,
        ),
      ),
    ),
  ),
)

-- For a client that connects and closes, and ends each read of the same register in the same way,
-- with an exception that is handled or with a response: from every state of the transport the
-- discovery returns, and each of the five capabilities has the first register of its own read, or
-- is missing if that read raised or answered with an error or without registers.
pub async_discover_capabilities-IsFound :
    (reads : ℕ → ℕ → Outcome Response) (client : Client) (t : Transport)
    → IsSteady reads client
    → (capabilities : Dict ℕ) × ((async_discover_capabilities client t).0 ≡ returned capabilities)
      × IsFound (λ address. found (reads address 1)) capabilities
async_discover_capabilities-IsFound reads client t steady = (
  kept (λ address. found (reads address 1)) capability_regs [],
  (Returns-async_discover_capabilities reads client steady).at t,
  kept-IsFound (λ address. found (reads address 1)),
)
