-- ===== src/Verifier/Ledger/Opening.antt =====
-- The first steps of a multisig on a ledger: `create_multisig`, `create_vault` and the first
-- `propose` of methods/guest/src/bin/private_multisig.rs.
use private_m_of_n_multisig.Common.{
  ℕ, ◌≤◌, ◌≡◌, ◌≢◌, refl, sym, ap, ◌∙◌, arith, none, some, List, [], ◌∷◌, ◌++◌, ok, length,
}
use private_m_of_n_multisig.Common.Bytes.{Bytes}
use private_m_of_n_multisig.Crypto.Hash.{Hasher}
use private_m_of_n_multisig.Core.State.{MultisigState, max_action_bytes_len}
use private_m_of_n_multisig.Verifier.Platform.{Platform}
use private_m_of_n_multisig.Verifier.Handlers.{encode}
use private_m_of_n_multisig.Verifier.Storage.{encode-from_slice}
use private_m_of_n_multisig.Verifier.Create.{fresh_state, accepted, create_vault_iff}
use private_m_of_n_multisig.Verifier.Propose.{fresh_proposal, propose_accepts}
use private_m_of_n_multisig.Verifier.Ledger.{
  Ledger, write, Event, other, held, state_at, proposal_at, vault_at, create_step, vault_step,
  propose_step, Run, start, then_step, meanwhile, output_of, calls, IsAlone,
}
use private_m_of_n_multisig.Verifier.Ledger.Writes.{write_same, write_other}

module _ (P : Platform) (H : Hasher) (program_id create_key : Bytes) where
  -- The steps of one run after those of another.
  unfoldable pub join :
      {L M N : Ledger} {before after : List Event}
      → Run P H program_id create_key L before M
      → Run P H program_id create_key M after N
      → Run P H program_id create_key L (after ++ before) N
  join r start = r
  join r (then_step s step) = then_step (join r s) step
  join r (meanwhile s apart_of) = meanwhile (join r s) apart_of

  -- The steps of a run call nothing and assume nothing.
  abbrev pub IsSilent :
      {L N : Ledger} {events : List Event} → Run P H program_id create_key L events N → Type 0
  IsSilent start = Unit
  IsSilent (then_step before step) =
      IsSilent before
      × ((output_of P H program_id create_key step).chained_calls ≡ [])
      × ((output_of P H program_id create_key step).assumptions ≡ [])
  IsSilent (meanwhile before _) = ⊥

  pub calls-join :
      {L M N : Ledger} {before after : List Event} (r : Run P H program_id create_key L before M)
      (s : Run P H program_id create_key M after N)
      → IsSilent r
      → calls P H program_id create_key (join r s) ≡ calls P H program_id create_key s
  unfolding join
  calls-join start start quiet = refl
  calls-join (then_step r step) start quiet = rw (quiet.1, calls-join r start quiet.0) refl
  calls-join (meanwhile r _) start quiet = absurd quiet
  calls-join r (then_step s step) quiet =
      ap (λ cs. (output_of P H program_id create_key step).chained_calls ++ cs)
        (calls-join r s quiet)
  calls-join r (meanwhile s _) quiet = calls-join r s quiet

  silent-IsAlone :
      {L N : Ledger} {events : List Event} (r : Run P H program_id create_key L events N)
      → IsSilent r
      → IsAlone P H program_id create_key r
  silent-IsAlone start quiet = tt
  silent-IsAlone (then_step r _) quiet = silent-IsAlone r quiet.0
  silent-IsAlone (meanwhile r _) quiet = quiet

  pub join-IsAlone :
      {L M N : Ledger} {before after : List Event} (r : Run P H program_id create_key L before M)
      (s : Run P H program_id create_key M after N)
      → IsSilent r
      → IsAlone P H program_id create_key s
      → IsAlone P H program_id create_key (join r s)
  unfolding join
  join-IsAlone r start quiet alone = silent-IsAlone r quiet
  join-IsAlone r (then_step s _) quiet alone = join-IsAlone r s quiet alone
  join-IsAlone r (meanwhile s _) quiet alone = alone

  module _ (members_root action target : Bytes) (m n : ℕ) where
    -- The state account's body after `create_multisig`, and with `count` proposals.
    abbrev pub state_with : ℕ → MultisigState
    state_with count = record (fresh_state create_key members_root m n) { proposal_count = count }

    -- The ledger after the three steps.
    abbrev pub opened_ledger : Ledger → Bytes → Bytes → Bytes → Ledger
    opened_ledger L d1 d2 d3 =
        let state = state_at P H program_id create_key in
        let vault = vault_at P H program_id create_key in
        write (write (write (write (write L state d1) state d1) vault []) state d2)
          (proposal_at P H program_id create_key 0) d3

    -- On a ledger without the three accounts, for a threshold from 1 to n, a root, and an action
    -- that is not too large: the steps succeed.
    pub opening :
        (L : Ledger) (d1 d2 d3 : Bytes)
        → L (state_at P H program_id create_key) ≡ none
        → L (vault_at P H program_id create_key) ≡ none
        → L (proposal_at P H program_id create_key 0) ≡ none
        → vault_at P H program_id create_key ≢ state_at P H program_id create_key
        → proposal_at P H program_id create_key 0 ≢ state_at P H program_id create_key
        → proposal_at P H program_id create_key 0 ≢ vault_at P H program_id create_key
        → (1 ≤ m) × (m ≤ n)
        → length action ≤ max_action_bytes_len
        → encode P P.states (state_with 0) ≡ ok d1
        → encode P P.states (state_with 1) ≡ ok d2
        → encode P P.proposals (fresh_proposal action target) ≡ ok d3
        → (run : Run P H program_id create_key L
            (other ∷ other ∷ other ∷ [])
            (opened_ledger L d1 d2 d3))
          × IsSilent run
    opening L d1 d2 d3 no_state no_vault no_proposal vault_state proposal_state proposal_vault valid
          fits e1 e2 e3 =
        let state = state_at P H program_id create_key in
        let vault = vault_at P H program_id create_key in
        let proposal = proposal_at P H program_id create_key 0 in
        let signer = held P H program_id create_key state [] in
        let L1 = write L state d1 in
        let L2 = write (write L1 state d1) vault [] in
        let in_state : P.states.from_slice d1 ≡ some (state_with 0) =
          encode-from_slice P P.states (state_with 0) d1 e1 in
        let at_vault : L1 vault ≡ none = write_other L vault state d1 vault_state ∙ no_vault in
        let at_state : L2 state ≡ some d1 =
          write_other (write L1 state d1) state vault [] (λ e. vault_state (sym e))
          ∙ write_same L1 state d1 in
        let at_proposal : L2 proposal ≡ none =
          write_other (write L1 state d1) proposal vault [] proposal_vault
          ∙ write_other L1 proposal state d1 proposal_state
          ∙ write_other L proposal state d1 proposal_state
          ∙ no_proposal in
        (
          then_step
              (then_step
                (then_step start (
                  create_step signer members_root m n _ no_state (
                    accepted P (held P H program_id create_key state []) signer create_key
                      members_root m n d1 e1 valid)))
                (vault_step d1 signer _ (write_same L state d1) at_vault (
                  (create_vault_iff P (held P H program_id create_key state d1)
                      (held P H program_id create_key vault []) signer create_key _).1
                    ((state_with 0, in_state), refl))))
              (propose_step d1 signer 0 action target _ (omega arith) at_state at_proposal (
                propose_accepts P (held P H program_id create_key state d1)
                  (held P H program_id create_key proposal []) signer create_key 0 action target d2
                  d3 (state_with 0) fits in_state refl (omega arith) e2 e3)),
          (((tt, refl, refl), refl, refl), refl, refl),
        )
