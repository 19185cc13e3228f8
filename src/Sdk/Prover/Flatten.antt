-- ===== src/Sdk/Prover/Flatten.antt =====
-- sdk/src/prover.rs: `flatten_proof`, a loop over the levels.
use private_m_of_n_multisig.Common.{
  ℕ, zero, suc, ◌+◌, ◌≡◌, refl, sym, ap, ◌∙◌, arith, Bool, false, List, [], ◌∷◌, length, drop,
  get_or,
}
use private_m_of_n_multisig.Common.Bytes.{Bytes}
use private_m_of_n_multisig.Crypto.Merkle.{MerkleProof, IsProof, merkle_depth}

-- The entries from a level on, read one by one: `rounds` of them.
unfoldable pub read_levels {ℓ} : {A : Type ℓ} → ℕ → ℕ → List A → A → List A
read_levels zero level xs default = []
read_levels (suc rounds) level xs default =
    get_or xs level default ∷ read_levels rounds (level + 1) xs default

unfoldable pub flatten_proof : MerkleProof → List Bytes × List Bool
unfolding read_levels
flatten_proof p =
    (read_levels merkle_depth 0 p.siblings [], read_levels merkle_depth 0 p.indices false)

drop_all {ℓ} : {A : Type ℓ} (level : ℕ) (xs : List A) → length xs ≡ level → drop level xs ≡ []
drop_all zero [] h = refl
drop_all zero (x ∷ xs) h = absurd (omega (arith, h))
drop_all (suc level) [] h = refl
drop_all (suc level) (x ∷ xs) h = drop_all level xs (omega (arith, h))

drop_next {ℓ} :
    {A : Type ℓ} (level : ℕ) (xs : List A) (default : A) (rounds : ℕ)
    → length xs ≡ level + suc rounds
    → get_or xs level default ∷ drop (suc level) xs ≡ drop level xs
drop_next zero (x ∷ xs) default rounds h = refl
drop_next zero [] default rounds h = absurd (omega (arith, h))
drop_next (suc level) [] default rounds h = absurd (omega (arith, h))
drop_next (suc level) (x ∷ xs) default rounds h =
    drop_next level xs default rounds (omega (arith, h))

read_levels-drop {ℓ} :
    {A : Type ℓ} (rounds level : ℕ) (xs : List A) (default : A)
    → length xs ≡ level + rounds
    → read_levels rounds level xs default ≡ drop level xs
unfolding read_levels
read_levels-drop zero level xs default h = sym (drop_all level xs (omega (arith, h)))
read_levels-drop (suc rounds) level xs default h =
    let next : level + 1 ≡ suc level = omega arith in
    ap (λ l. get_or xs level default ∷ l)
      (read_levels-drop rounds (level + 1) xs default (omega (arith, h)) ∙ ap (λ k. drop k xs) next)
    ∙ drop_next level xs default rounds h

-- The loop gives the two arrays of a proof of 20 siblings and 20 directions as they are.
pub flatten_proof_lem : (p : MerkleProof) → IsProof p → flatten_proof p ≡ (p.siblings, p.indices)
unfolding flatten_proof
flatten_proof_lem p w = λ i. (
  read_levels-drop merkle_depth 0 p.siblings [] w.sibling_count i,
  read_levels-drop merkle_depth 0 p.indices false w.index_count i,
)
