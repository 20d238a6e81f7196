-- ===== src/Message/States.antt =====
-- The states of a cross-chain message and `CanTransition` of
-- services/cross-chain-coordinator/message/registry.go.
use unified.Base.{ℕ, ◌≡◌, refl, ◌⊎◌, inl, inr, Bool, true, false, ◌&&◌, ◌||◌, List, [], ◌∷◌, ◌==◌}

-- The constants of `CrossChainMessageState` that the code names; `unspecified` is its zero value.
pub data MessageState : Type 0 where
  unspecified created source_finalizing source_final sent relayed verified executed : MessageState
  ack_pending acknowledged rejected failed expired recovery_pending : MessageState
  destination_tombstoned source_compensated recovered disputed : MessageState

abbrev number : MessageState → ℕ
number unspecified = 0
number created = 1
number source_finalizing = 2
number source_final = 3
number sent = 4
number relayed = 5
number verified = 6
number executed = 7
number ack_pending = 8
number acknowledged = 9
number rejected = 10
number failed = 11
number expired = 12
number recovery_pending = 13
number destination_tombstoned = 14
number source_compensated = 15
number recovered = 16
number disputed = 17

abbrev pub same_state : MessageState → MessageState → Bool
same_state s t = number s == number t

-- The map of the transitions.
abbrev allowed : MessageState → List MessageState
allowed created = source_finalizing ∷ []
allowed source_finalizing = source_final ∷ expired ∷ disputed ∷ []
allowed source_final = sent ∷ disputed ∷ []
allowed sent = relayed ∷ failed ∷ rejected ∷ expired ∷ disputed ∷ []
allowed relayed = verified ∷ failed ∷ rejected ∷ expired ∷ disputed ∷ []
allowed verified = executed ∷ failed ∷ rejected ∷ disputed ∷ []
allowed executed = ack_pending ∷ disputed ∷ []
allowed ack_pending = acknowledged ∷ disputed ∷ []
allowed rejected = recovery_pending ∷ disputed ∷ []
allowed expired = recovery_pending ∷ disputed ∷ []
allowed recovery_pending = destination_tombstoned ∷ disputed ∷ []
allowed destination_tombstoned = source_compensated ∷ disputed ∷ []
allowed source_compensated = recovered ∷ disputed ∷ []
allowed _ = []

-- `for _, candidate := range`
abbrev among : MessageState → List MessageState → Bool
among to [] = false
among to (candidate ∷ rest) = same_state candidate to || among to rest

unfoldable pub can_transition : MessageState → MessageState → Bool → Bool
can_transition failed to retryable =
    (retryable && same_state to sent) || same_state to recovery_pending || same_state to disputed
can_transition from to retryable = among to (allowed from)

-- The states that `CanTransition` lets a message reach, at any retryability.
pub data Reaches : MessageState → MessageState → Type 0 where
  here : (s : MessageState) → Reaches s s
  onward :
      (s t u : MessageState) (retryable : Bool)
      → can_transition s t retryable ≡ true
      → Reaches t u
      → Reaches s u

abbrev is_settled : MessageState → Bool
is_settled executed = true
is_settled ack_pending = true
is_settled acknowledged = true
is_settled disputed = true
is_settled _ = false

settled_step :
    (s t : MessageState) (retryable : Bool)
    → is_settled s ≡ true
    → can_transition s t retryable ≡ true
    → is_settled t ≡ true
unfolding can_transition
settled_step executed t retryable h k = after_executed t k
  where
    after_executed : (t : MessageState) → among t (allowed executed) ≡ true → is_settled t ≡ true
    after_executed ack_pending k = refl
    after_executed disputed k = refl
    after_executed t k = absurd (cc)
settled_step ack_pending t retryable h k = after_ack t k
  where
    after_ack : (t : MessageState) → among t (allowed ack_pending) ≡ true → is_settled t ≡ true
    after_ack acknowledged k = refl
    after_ack disputed k = refl
    after_ack t k = absurd (cc)
settled_step s t retryable h k = absurd (cc)

settled_reach : (s t : MessageState) → Reaches s t → is_settled s ≡ true → is_settled t ≡ true
settled_reach s t (Reaches.here u) h = h
settled_reach s t (Reaches.onward u v w retryable step rest) h =
    settled_reach v t rest (settled_step s v retryable h step)

-- A message that is executed at its destination is never compensated, recovered, retried or expired:
-- it can only be acknowledged or disputed.
pub executed_is_final :
    (t : MessageState)
    → Reaches executed t
    → (t ≡ executed) ⊎ (t ≡ ack_pending) ⊎ (t ≡ acknowledged) ⊎ (t ≡ disputed)
executed_is_final t path = settled t (settled_reach executed t path refl)
  where
    settled :
        (t : MessageState)
        → is_settled t ≡ true
        → (t ≡ executed) ⊎ (t ≡ ack_pending) ⊎ (t ≡ acknowledged) ⊎ (t ≡ disputed)
    settled executed h = inl refl
    settled ack_pending h = inr (inl refl)
    settled acknowledged h = inr (inr (inl refl))
    settled disputed h = inr (inr (inr refl))
    settled t h = absurd (cc)
