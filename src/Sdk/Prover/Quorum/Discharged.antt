-- ===== src/Sdk/Prover/Quorum/Discharged.antt =====
-- The receipts behind a run of a ledger: each assumption of a step's output, which `env::verify` of
-- methods/guest/src/bin/private_multisig.rs adds, has a run of the approve circuit behind it.
use private_m_of_n_multisig.Common.{ℕ, ◌≡◌, List, [], ◌∷◌, ok}
use private_m_of_n_multisig.Common.Bytes.{Bytes}
use private_m_of_n_multisig.Crypto.Hash.{Hasher}
use private_m_of_n_multisig.Circuit.{GuestEnv, main}
use private_m_of_n_multisig.Verifier.Platform.{Platform}
use private_m_of_n_multisig.Verifier.Handlers.{approve_circuit_image_id}
use private_m_of_n_multisig.Verifier.Ledger.{
  Ledger, Event, Run, start, then_step, meanwhile, output_of,
}
use private_m_of_n_multisig.Verifier.Ledger.Opening.{join, IsSilent}

-- The assumptions of a step's output are discharged: each is of the approve circuit, which has
-- committed the journal on some input.
abbrev pub AreDischarged : Hasher → GuestEnv → List (List ℕ × Bytes) → Type 0
AreDischarged H E [] = Unit
AreDischarged H E ((image, journal) ∷ rest) =
    (image ≡ approve_circuit_image_id)
    × ((input : Bytes) × (main H E input ≡ ok journal))
    × AreDischarged H E rest

module _ (P : Platform) (H : Hasher) (E : GuestEnv) (program_id create_key : Bytes) where
  -- The assumptions of every step are discharged.
  abbrev pub IsDischarged :
      {L N : Ledger} {events : List Event} → Run P H program_id create_key L events N → Type 0
  IsDischarged start = Unit
  IsDischarged (then_step before step) =
      IsDischarged before × AreDischarged H E (output_of P H program_id create_key step).assumptions
  IsDischarged (meanwhile before _) = IsDischarged before

  silent-IsDischarged :
      {L N : Ledger} {events : List Event} (r : Run P H program_id create_key L events N)
      → IsSilent P H program_id create_key r
      → IsDischarged r
  silent-IsDischarged start quiet = tt
  silent-IsDischarged (then_step r step) quiet = (silent-IsDischarged r quiet.0, rw quiet.2 tt)
  silent-IsDischarged (meanwhile r _) quiet = absurd quiet

  pub join-IsDischarged :
      {L M N : Ledger} {before after : List Event} (r : Run P H program_id create_key L before M)
      (s : Run P H program_id create_key M after N)
      → IsSilent P H program_id create_key r
      → IsDischarged s
      → IsDischarged (join P H program_id create_key r s)
  unfolding join
  join-IsDischarged r start quiet d = silent-IsDischarged r quiet
  join-IsDischarged r (then_step s step) quiet d = (join-IsDischarged r s quiet d.0, d.1)
  join-IsDischarged r (meanwhile s _) quiet d = join-IsDischarged r s quiet d
