-- ===== src/Verifier/Create.antt =====
-- The handlers `create_multisig` and `create_vault` of
-- methods/guest/src/bin/private_multisig.rs.
use private_m_of_n_multisig.Common.{
  ℕ, ◌≤◌, ◌≡◌, ◌↔◌, refl, sym, ap, ◌∙◌, some, [], ◌∷◌, Result, ok, err, arith, >>=-eq-ok,
}
use private_m_of_n_multisig.Common.Bytes.{Bytes}
use private_m_of_n_multisig.Core.Errors.{CoreError, invalid_threshold}
use private_m_of_n_multisig.Core.State.{MultisigState, validate_threshold, validate_threshold_iff}
use private_m_of_n_multisig.Verifier.Platform.{AccountWithMetadata, SpelOutput, Platform}
use private_m_of_n_multisig.Verifier.Handlers.{
  decode, encode, fail, map_err, output, create_multisig, create_vault,
}
use private_m_of_n_multisig.Verifier.Storage.{Holds, IsStorable, decode-Holds, encode-from_slice}

abbrev pub fresh_state : Bytes → Bytes → ℕ → ℕ → MultisigState
fresh_state create_key members_root m n = record {
  create_key = create_key;
  members_root = members_root;
  m = m;
  n = n;
  proposal_count = 0;
}

-- What a successful `create_multisig` requires and does.
pub record Creates (P : Platform) (state creator : AccountWithMetadata)
    (create_key members_root : Bytes) (m n : ℕ) (out : SpelOutput) : Type 0 where
  pub state_data : Bytes
  pub valid : (1 ≤ m) × (m ≤ n)
  pub stored : P.states.from_slice state_data ≡ some (fresh_state create_key members_root m n)
  pub written : out ≡ output (record state { body = state_data } ∷ creator ∷ []) []

unit_ok : (r : Result CoreError (Unit {0})) {u : Unit {0}} → map_err r ≡ ok u → r ≡ ok tt
unit_ok (ok u) h = refl
unit_ok (err e) h = cc

-- A successful `create_multisig` had 1 <= m <= n, and stores the given key, root and threshold with
-- a proposal count of zero in the state account. It changes nothing else and calls nothing.
pub create_multisig-Creates :
    (P : Platform) (state creator : AccountWithMetadata) (create_key members_root : Bytes) (m n : ℕ)
    (out : SpelOutput)
    → create_multisig P state creator create_key members_root m n ≡ ok out
    → Creates P state creator create_key members_root m n out
unfolding create_multisig
create_multisig-Creates P state creator create_key members_root m n out e =
    let (_, r1, e1) = >>=-eq-ok (map_err (validate_threshold m n)) _ e in
    let (d, r2, e2) =
      >>=-eq-ok (encode P P.states (fresh_state create_key members_root m n)) _ e1 in
    record {
      state_data = d;
      valid = (validate_threshold_iff m n).0.0 (unit_ok _ r1);
      stored = encode-from_slice P P.states _ d r2;
      written = ground arith;
    }

module _ (P : Platform) (state creator : AccountWithMetadata) (create_key members_root : Bytes)
    (m n : ℕ) where
  rejected :
      ¬ ((1 ≤ m) × (m ≤ n))
      → create_multisig P state creator create_key members_root m n ≡ err (fail invalid_threshold)
  unfolding create_multisig
  rejected h = rw ((validate_threshold_iff m n).1.1 h) refl

  pub accepted :
      (d : Bytes)
      → encode P P.states (fresh_state create_key members_root m n) ≡ ok d
      → (1 ≤ m) × (m ≤ n)
      → create_multisig P state creator create_key members_root m n
        ≡ ok (output (record state { body = d } ∷ creator ∷ []) [])
  unfolding create_multisig
  accepted d stores h = rw ((validate_threshold_iff m n).0.1 h, stores) refl

-- If the fresh body can be stored, `create_multisig` accepts exactly the thresholds with
-- 1 <= m <= n, and rejects exactly the others with `InvalidThreshold`, whatever the accounts hold.
pub create_multisig_iff :
    (P : Platform) (state creator : AccountWithMetadata) (create_key members_root : Bytes) (m n : ℕ)
    → IsStorable P P.states (fresh_state create_key members_root m n)
    → ((create_multisig P state creator create_key members_root m n ≡ err (fail invalid_threshold))
        ↔ (¬ ((1 ≤ m) × (m ≤ n))))
      × (((out : SpelOutput) × (create_multisig P state creator create_key members_root m n
              ≡ ok out))
          ↔ ((1 ≤ m) × (m ≤ n)))
create_multisig_iff P state creator create_key members_root m n (d, stores) =
    let accept = accepted P state creator create_key members_root m n d stores in
    (
      (
        λ e valid. let e' = sym (accept valid) ∙ e in cc,
        rejected P state creator create_key members_root m n,
      ),
      (
        λ r. (create_multisig-Creates P state creator create_key members_root m n r.0 r.1).valid,
        λ valid. (_, accept valid),
      ),
    )

-- `create_vault` succeeds exactly when the state account holds a multisig, and then it returns its
-- three accounts as they came.
pub create_vault_iff :
    (P : Platform) (state vault payer : AccountWithMetadata) (create_key : Bytes) (out : SpelOutput)
    → (create_vault P state vault payer create_key ≡ ok out) ↔ (
        ((body : MultisigState) × Holds P.states state body)
        × (out ≡ output (state ∷ vault ∷ payer ∷ []) []))
unfolding create_vault
create_vault_iff P state vault payer create_key out = (
  λ e.
      let (body, r, e') = >>=-eq-ok (decode P P.states state) _ e in
      ((body, decode-Holds P P.states state body r), ground arith),
  λ h. rw (h.0.1) (ap ok (sym h.1)),
)
