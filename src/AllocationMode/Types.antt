-- ===== src/AllocationMode/Types.antt =====
-- The data of services/payment-orchestrator/allocationmode/registry.go.
use unified.Base.{ℕ, String, ◌≡◌, refl, ap, Bool, true, false, ◌=ₛ◌, eq_of_text_eq, Dict, Time}

-- `type Mode string`: the constants, and any other text.
pub data Mode : Type 0 where
  synthetic_projection canonical_gateway : Mode
  other_mode : String → Mode

-- `type CanonicalState string`; a synthetic claim has the empty text.
pub data CanonicalState : Type 0 where
  prepared submitted confirmed failed quarantined incident : CanonicalState
  other_state : String → CanonicalState

pub data ReversalDisposition : Type 0 where
  reversal_unclaimed reversal_synthetic reversal_released : ReversalDisposition
  reversal_quarantined reversal_incident : ReversalDisposition

-- The sentinels, and an error of a callback.
pub data AllocationError : Type 0 where
  invalid_claim claim_conflict invalid_transition resolution_failed : AllocationError
  invalid_store store_conflict : AllocationError
  callback_failed : String → AllocationError

pub record Claim : Type 0 where
  pub claim_id : String
  pub payment_id : String
  pub allocation_id : String
  pub mode : Mode
  pub digest : String
  pub state : CanonicalState
  pub expected_version : ℕ  -- uint64
  pub evidence_hash : String
  pub claimed_at : Time

-- `MemoryStore`
pub record MemoryStore : Type 0 where
  pub claims : Dict Claim

-- `reversed` holds the payments with a tombstone.
pub record Registry : Type 0 where
  pub by_payment : Dict Claim
  pub by_allocation : Dict String
  pub reversed : Dict Bool
  pub store : MemoryStore

abbrev pub same_mode : Mode → Mode → Bool
same_mode synthetic_projection synthetic_projection = true
same_mode canonical_gateway canonical_gateway = true
same_mode (other_mode s) (other_mode t) = s =ₛ t
same_mode _ _ = false

abbrev pub same_state : CanonicalState → CanonicalState → Bool
same_state prepared prepared = true
same_state submitted submitted = true
same_state confirmed confirmed = true
same_state failed failed = true
same_state quarantined quarantined = true
same_state incident incident = true
same_state (other_state s) (other_state t) = s =ₛ t
same_state _ _ = false

pub same_mode_lem : (m n : Mode) → same_mode m n ≡ true → m ≡ n
same_mode_lem synthetic_projection synthetic_projection h = refl
same_mode_lem canonical_gateway canonical_gateway h = refl
same_mode_lem (other_mode s) (other_mode t) h = ap other_mode (eq_of_text_eq s t h)
same_mode_lem m n h = absurd (cc)

pub same_state_lem : (s t : CanonicalState) → same_state s t ≡ true → s ≡ t
same_state_lem prepared prepared h = refl
same_state_lem submitted submitted h = refl
same_state_lem confirmed confirmed h = refl
same_state_lem failed failed h = refl
same_state_lem quarantined quarantined h = refl
same_state_lem incident incident h = refl
same_state_lem (other_state s) (other_state t) h = ap other_state (eq_of_text_eq s t h)
same_state_lem s t h = absurd (cc)
