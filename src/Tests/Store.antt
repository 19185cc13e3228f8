-- ===== src/Tests/Store.antt =====
-- A store of sessions in memory, for sessions that have just been drafted, and the theorems on it.
use private_m_of_n_multisig.Common.{
  ℕ, ◌≡◌, ◌≢◌, refl, sym, ap, ◌∙◌, arith, inl, Option, none, some, ◌∷◌, ◌++◌, Result, ok, length,
  take, drop, take-append_left, drop-append_left, if◌then◌else◌, replicate, get_or,
}
use private_m_of_n_multisig.Common.Bytes.{Bytes, zeros, bytes_eq, bytes_eq_refl, bytes_eq_ne}
use private_m_of_n_multisig.Verifier.Platform.{Borsh}
use private_m_of_n_multisig.Sdk.Session.{ApprovalSession, SessionStatus, drafted}
use private_m_of_n_multisig.Sdk.Store.{
  Sled, session_key, save, load, Answers, load-save, load-save_other,
}

abbrev Map : Type 0
Map = Bytes → Option Bytes

abbrev put : Map → Bytes → Option Bytes → Map
put t key value x = if bytes_eq x key then value else t x

put_same : (t : Map) (key : Bytes) (value : Option Bytes) → put t key value key ≡ value
put_same t key value = rw (bytes_eq_refl key) refl

put_other :
    (t : Map) (key other : Bytes) (value : Option Bytes)
    → other ≢ key
    → put t key value other ≡ t other
put_other t key other value h = rw (bytes_eq_ne other key h) refl

unwrap : {A : Type 0} {x y : A} → ◌≡◌ {A = Result Bytes A} (ok x) (ok y) → x ≡ y
unwrap e = cc

abbrev memory : Sled
memory = record {
  Tree = Map;
  lock = λ t. ok tt;
  insert = λ t key value. ok (put t key (some value));
  get = λ t key. ok (t key);
  remove = λ t key. ok (put t key none);
  get-insert = λ t t' key value e.
      inl (ap (λ (m : Map). ok (m key)) (sym (unwrap e)) ∙ ap ok (put_same t key (some value)));
  get-insert_other = λ t t' key value other found e differ here. inl (
      ap (λ (m : Map). ok (m other)) (sym (unwrap e))
      ∙ ap ok (put_other t key other (some value) differ)
      ∙ here);
  get-remove = λ t t' key e.
      inl (ap (λ (m : Map). ok (m key)) (sym (unwrap e)) ∙ ap ok (put_same t key none));
}

-- Only a drafted session is encoded.
abbrev pub draft : Bytes → Bytes → Bytes → Bytes → Bytes → ℕ → ℕ → ApprovalSession
draft pda id member inputs nullifier retries updated = record {
  instance_pda = pda;
  proposal_id = id;
  member_commitment = member;
  status = drafted;
  receipt = none;
  public_inputs = some inputs;
  nullifier = some nullifier;
  submission_block = none;
  error_message = none;
  retry_count = retries;
  last_updated = updated;
}

abbrev pub fields : Bytes → Bytes → Bytes → Bytes → Bytes → ℕ → ℕ → Bytes
fields pda id member inputs nullifier retries updated =
    retries
    ∷ updated
    ∷ length pda
    ∷ length id
    ∷ length member
    ∷ length inputs
    ∷ (pda ++ (id ++ (member ++ (inputs ++ nullifier))))

abbrev pub encode :
    Bytes
    → Bytes
    → Bytes
    → SessionStatus
    → Option Bytes
    → Option Bytes
    → Option Bytes
    → Option ℕ
    → Option Bytes
    → ℕ
    → ℕ
    → Option Bytes
encode pda id member drafted none (some inputs) (some nullifier) none none retries updated =
    some (fields pda id member inputs nullifier retries updated)
encode _ _ _ _ _ _ _ _ _ _ _ = none

abbrev pub to_vec : ApprovalSession → Option Bytes
to_vec s =
    encode s.instance_pda s.proposal_id s.member_commitment s.status s.receipt s.public_inputs
      s.nullifier s.submission_block s.error_message s.retry_count s.last_updated

abbrev pub from_slice : Bytes → Option ApprovalSession
from_slice (retries ∷ updated ∷ a ∷ b ∷ c ∷ d ∷ rest) =
    let r1 = drop a rest in
    let r2 = drop b r1 in
    let r3 = drop c r2 in
    some (draft (take a rest) (take b r1) (take c r2) (take d r3) (drop d r3) retries updated)
from_slice _ = none

read_fields :
    (pda id member inputs nullifier : Bytes) (retries updated : ℕ)
    → from_slice (fields pda id member inputs nullifier retries updated)
      ≡ some (draft pda id member inputs nullifier retries updated)
read_fields pda id member inputs nullifier retries updated =
    rw
      (
        take-append_left (length pda) pda (id ++ (member ++ (inputs ++ nullifier))) refl,
        drop-append_left (length pda) pda (id ++ (member ++ (inputs ++ nullifier))) refl,
        take-append_left (length id) id (member ++ (inputs ++ nullifier)) refl,
        drop-append_left (length id) id (member ++ (inputs ++ nullifier)) refl,
        take-append_left (length member) member (inputs ++ nullifier) refl,
        drop-append_left (length member) member (inputs ++ nullifier) refl,
        take-append_left (length inputs) inputs nullifier refl,
        drop-append_left (length inputs) inputs nullifier refl,
      )
      refl

pub encode_lem :
    (pda id member : Bytes) (status : SessionStatus) (receipt inputs nullifier : Option Bytes)
    (block : Option ℕ) (message : Option Bytes) (retries updated : ℕ) (b : Bytes)
    → encode pda id member status receipt inputs nullifier block message retries updated ≡ some b
    → from_slice b
      ≡ some (record {
        instance_pda = pda;
        proposal_id = id;
        member_commitment = member;
        status = status;
        receipt = receipt;
        public_inputs = inputs;
        nullifier = nullifier;
        submission_block = block;
        error_message = message;
        retry_count = retries;
        last_updated = updated;
      })
encode_lem pda id member drafted none (some inputs) (some nullifier) none none retries updated b e =
    let same : fields pda id member inputs nullifier retries updated ≡ b = ground arith in
    ap from_slice (sym same) ∙ read_fields pda id member inputs nullifier retries updated
encode_lem _ _ _ _ _ _ _ _ _ _ _ b e = cc

abbrev pub codec : Borsh ApprovalSession
codec = record {
  to_vec = to_vec;
  from_slice = from_slice;
  from_slice-to_vec = λ s b e.
      encode_lem s.instance_pda s.proposal_id s.member_commitment s.status s.receipt s.public_inputs
        s.nullifier s.submission_block s.error_message s.retry_count s.last_updated b e;
}

abbrev pub session : ℕ → ApprovalSession
session member =
    draft (zeros 32) (zeros 32) (replicate 32 member) (zeros 96) (replicate 32 member) 0 100

abbrev empty : Map
empty x = none

abbrev key : ℕ → Bytes
key member = session_key (zeros 32) (zeros 32) (replicate 32 member)

abbrev value : ℕ → Option Bytes
value member = to_vec (session member)

save_1 : save memory codec empty (session 1) ≡ ok (put empty (key 1) (value 1))
unfolding save
save_1 = refl

save_2 :
    save memory codec (put empty (key 1) (value 1)) (session 2)
    ≡ ok (put (put empty (key 1) (value 1)) (key 2) (value 2))
unfolding save
save_2 = refl

load_1 :
    load memory codec (put empty (key 1) (value 1)) (zeros 32) (zeros 32) (replicate 32 1)
    ≡ ok (session 1)
unfolding load session_key bytes_eq
load_1 = refl

load-save_example :
    Answers memory codec
      (load memory codec (put empty (key 1) (value 1)) (zeros 32) (zeros 32) (replicate 32 1))
      (ok (session 1))
load-save_example = load-save memory codec empty (put empty (key 1) (value 1)) (session 1) save_1

load-save_other_example :
    Answers memory codec
      (load memory codec
        (put (put empty (key 1) (value 1)) (key 2) (value 2))
        (zeros 32)
        (zeros 32)
        (replicate 32 1))
      (ok (session 1))
load-save_other_example =
    load-save_other memory codec (put empty (key 1) (value 1))
      (put (put empty (key 1) (value 1)) (key 2) (value 2)) (session 2) (session 1) (zeros 32)
      (zeros 32) (replicate 32 1) refl refl refl refl
      (λ p. absurd (omega (arith, ap (λ (l : Bytes). get_or l 0 0) p.2))) load_1 save_2
