-- ===== src/Verifier/Ledger/Tally.antt =====
-- The tally of one proposal, kept by every step of the ledger: votes, entries and executions.
use private_m_of_n_multisig.Common.{
  ℕ, ◌+◌, ◌≤◌, ◌≡◌, ◌≢◌, sym, ap, ◌∙◌, Bool, true, false, none, some, List, [], ◌∷◌, length,
  if◌then◌else◌, arith,
}
use private_m_of_n_multisig.Common.Bytes.{Bytes, All, bytes_eq, bytes_eq_refl}
use private_m_of_n_multisig.Crypto.Hash.{Hasher}
use private_m_of_n_multisig.Core.State.{Proposal}
use private_m_of_n_multisig.Verifier.Platform.{Platform}
use private_m_of_n_multisig.Verifier.Ledger.{
  Ledger, Event, voted, executed_at, state_at, vault_at, entry_at,
}
use private_m_of_n_multisig.Verifier.Ledger.Writes.{Present, unwrap}

-- The nullifiers accepted for the proposal at an address, and how often it was executed.
unfoldable pub votes_at : Bytes → List Event → List Bytes
votes_at a [] = []
votes_at a (voted b nullifier ∷ events) =
    let rest = votes_at a events in if bytes_eq b a then nullifier ∷ rest else rest
votes_at a (_ ∷ events) = votes_at a events

unfoldable pub executions_at : Bytes → List Event → ℕ
executions_at a [] = 0
executions_at a (executed_at b ∷ events) =
    let rest = executions_at a events in if bytes_eq b a then rest + 1 else rest
executions_at a (_ ∷ events) = executions_at a events

-- No item occurs twice.
abbrev pub IsDistinct : List Bytes → Type 0
IsDistinct [] = Unit
IsDistinct (x ∷ xs) = All (λ y. y ≢ x) xs × IsDistinct xs

abbrev pub flag : Bool → ℕ
flag true = 1
flag false = 0

pub flag_bound : (n : ℕ) (b : Bool) → n ≡ flag b → n ≤ 1
flag_bound n true h = omega arith
flag_bound n false h = omega arith

All-map : {P Q : Bytes → Type 0} (xs : List Bytes) → ((x : Bytes) → P x → Q x) → All P xs → All Q xs
All-map [] f w = tt
All-map (x ∷ xs) f w = (f x w.0, All-map xs f w.1)

module _ (P : Platform) (H : Hasher) (program_id create_key a : Bytes)
    (not_state : a ≢ state_at P H program_id create_key)
    (not_vault : a ≢ vault_at P H program_id create_key) (first : Proposal) where
  -- What the ledger holds at the proposal's address after the events: the body `first`, but for the
  -- count and the flag.
  pub record Tallied (L : Ledger) (events : List Event) : Type 0 where
    pub data_at : Bytes
    pub body : Proposal
    pub found : L a ≡ some data_at
    pub reads : P.proposals.from_slice data_at ≡ some body
    pub same :
        body ≡ record first { approvals_count = body.approvals_count; executed = body.executed }
    pub counted : body.approvals_count ≡ length (votes_at a events)
    pub ran : executions_at a events ≡ flag body.executed
    pub entries : All (λ v. Present L (entry_at P H program_id create_key a v)) (votes_at a events)
    pub distinct : IsDistinct (votes_at a events)

  -- A step that leaves the address alone, and is no event of it.
  pub quiet :
      (L N : Ledger) (events events' : List Event)
      → Tallied L events
      → N a ≡ L a
      → ((x : Bytes) → Present L x → Present N x)
      → votes_at a events' ≡ votes_at a events
      → executions_at a events' ≡ executions_at a events
      → Tallied N events'
  quiet L N events events' w same keeps votes runs = record {
    data_at = w.data_at;
    body = w.body;
    found = same ∙ w.found;
    reads = w.reads;
    same = w.same;
    counted = rw votes w.counted;
    ran = runs ∙ w.ran;
    entries = rw votes (All-map (votes_at a events) (λ v. keeps _) w.entries);
    distinct = rw votes w.distinct;
  }

  -- Something that leaves the proposal and its entries as they are.
  pub undisturbed :
      (L N : Ledger) (events : List Event)
      → Tallied L events
      → N a ≡ L a
      → ((v : Bytes)
          → N (entry_at P H program_id create_key a v) ≡ L (entry_at P H program_id create_key a v))
      → Tallied N events
  undisturbed L N events w same keeps = record {
    data_at = w.data_at;
    body = w.body;
    found = same ∙ w.found;
    reads = w.reads;
    same = w.same;
    counted = w.counted;
    ran = w.ran;
    entries = All-map (votes_at a events) (λ v present. (present.0, keeps v ∙ present.1)) w.entries;
    distinct = w.distinct;
  }

  -- What a handler decodes at the address is the body that is tallied.
  pub same_body :
      (L : Ledger) (events : List Event) (w : Tallied L events) (b d : Bytes) (body : Proposal)
      → b ≡ a
      → L b ≡ some d
      → P.proposals.from_slice d ≡ some body
      → body ≡ w.body
  same_body L events w b d body same found reads =
      let e : d ≡ w.data_at = unwrap (sym found ∙ ap L same ∙ w.found) in
      unwrap (sym reads ∙ ap P.proposals.from_slice e ∙ w.reads)

  -- A vote for the proposal at the address: its entry was absent before.
  pub vote :
      (L N : Ledger) (events : List Event) (nullifier d : Bytes) (w : Tallied L events)
      → L (entry_at P H program_id create_key a nullifier) ≡ none
      → N a ≡ some d
      → P.proposals.from_slice d
        ≡ some (record w.body { approvals_count = w.body.approvals_count + 1 })
      → ((x : Bytes) → Present L x → Present N x)
      → Present N (entry_at P H program_id create_key a nullifier)
      → Tallied N (voted a nullifier ∷ events)
  unfolding votes_at executions_at
  vote L N events nullifier d w absent found reads keeps entered = record {
    data_at = d;
    body = record w.body { approvals_count = w.body.approvals_count + 1 };
    found = found;
    reads = reads;
    same = ap (λ (r : Proposal). record r { approvals_count = w.body.approvals_count + 1 }) w.same;
    counted = rw (bytes_eq_refl a) (omega (arith, w.counted));
    ran = w.ran;
    entries = rw (bytes_eq_refl a) (entered, All-map (votes_at a events) (λ v. keeps _) w.entries);
    distinct = rw (bytes_eq_refl a) (
      All-map (votes_at a events)
          (λ v present same. absurd (
            let e : some present.0 ≡ none =
              sym present.1 ∙ ap (λ x. L (entry_at P H program_id create_key a x)) same ∙ absent in
            cc))
          w.entries,
      w.distinct,
    );
  }

  -- An execution of the proposal at the address, which was pending.
  pub run_once :
      (L N : Ledger) (events : List Event) (d : Bytes) (w : Tallied L events)
      → w.body.executed ≡ false
      → N a ≡ some d
      → P.proposals.from_slice d ≡ some (record w.body { executed = true })
      → ((x : Bytes) → Present L x → Present N x)
      → Tallied N (executed_at a ∷ events)
  unfolding votes_at executions_at
  run_once L N events d w pending found reads keeps = record {
    data_at = d;
    body = record w.body { executed = true };
    found = found;
    reads = reads;
    same = ap (λ (r : Proposal). record r { executed = true }) w.same;
    counted = w.counted;
    ran = rw (bytes_eq_refl a) (omega (arith, w.ran ∙ ap flag pending));
    entries = All-map (votes_at a events) (λ v. keeps _) w.entries;
    distinct = w.distinct;
  }
