-- ===== src/Connections/StateMachine.antt =====
-- packages/connections_api/src/rca_connections_api/state_machine.py.
use industrial_rca.Prelude.{
  Bool, false, ◌&&◌, ◌||◌, not, List, [], ◌∷◌, ◌≡◌, refl, ◌↔◌, arith, eq_iff, if◌then◌else◌, ◌⊎◌,
  inl, inr,
}
use industrial_rca.Mar.Rows.{Status, pending, active, error, disabled, other, status_eq}

unfoldable pub statuses : List Status
statuses = pending ∷ active ∷ error ∷ disabled ∷ []

unfoldable pub legal_transitions : List (Status × Status)
legal_transitions =
    (pending, active)
    ∷ (pending, error)
    ∷ (active, disabled)
    ∷ (active, error)
    ∷ (error, pending)
    ∷ (disabled, pending)
    ∷ []

unfoldable pub patch_transitions : List (Status × Status)
patch_transitions = (active, disabled) ∷ (disabled, pending) ∷ []

-- `target in STATUSES` and `(current, target) in TABLE`.
unfoldable pub mem_status : Status → List Status → Bool
mem_status t [] = false
mem_status t (s ∷ ss) = status_eq t s || mem_status t ss

unfoldable pub mem_move : Status → Status → List (Status × Status) → Bool
mem_move c t [] = false
mem_move c t ((a, b) ∷ ms) = (status_eq c a && status_eq t b) || mem_move c t ms

-- Why a move is refused: the `reason` of `InvalidTransition`.
pub data Reason : Type 0 where
  unknown_status no_op not_legal endpoint_driven : Reason

pub record InvalidTransition : Type 0 where
  pub current : Status
  pub target : Status
  pub reason : Reason

pub data Verdict : Type 0 where
  allowed : Verdict
  invalid : InvalidTransition → Verdict

pub Verdict-cases : (v : Verdict) → (v ≡ allowed) ⊎ ((i : InvalidTransition) × (v ≡ invalid i))
Verdict-cases allowed = inl refl
Verdict-cases (invalid i) = inr (i, refl)

unfoldable pub assert_transition : Status → Status → Verdict
unfolding statuses legal_transitions mem_status mem_move
assert_transition current target =
    if not (mem_status target statuses)
    then invalid (record { current = current; target = target; reason = unknown_status })
    else if status_eq current target
    then invalid (record { current = current; target = target; reason = no_op })
    else if not (mem_move current target legal_transitions)
    then invalid (record { current = current; target = target; reason = not_legal })
    else allowed

unfoldable pub assert_patch_transition : Status → Status → Verdict
unfolding assert_transition patch_transitions mem_move
assert_patch_transition current target = elim (assert_transition current target) [
  | invalid x ↦ invalid x
  | allowed ↦
      if not (mem_move current target patch_transitions)
      then invalid (record { current = current; target = target; reason = endpoint_driven })
      else allowed
]

-- The life of a connection as the module's text draws it, one constructor for each arrow.
pub data Move : Status → Status → Type 0 where
  activate : Move pending active
  test_failed : Move pending error
  deactivate : Move active disabled
  health_failed : Move active error
  test_succeeded : Move error pending
  reenable : Move disabled pending

-- The arrows that an operator may take by a PATCH.
pub data OperatorMove : Status → Status → Type 0 where
  deactivate : OperatorMove active disabled
  reenable : OperatorMove disabled pending

Move-allowed : {s t : Status} → Move s t → assert_transition s t ≡ allowed
unfolding assert_transition status_eq
Move-allowed Move.activate = refl
Move-allowed Move.test_failed = refl
Move-allowed Move.deactivate = refl
Move-allowed Move.health_failed = refl
Move-allowed Move.test_succeeded = refl
Move-allowed Move.reenable = refl

allowed-Move : (s t : Status) → assert_transition s t ≡ allowed → Move s t
unfolding assert_transition status_eq
allowed-Move pending active h = Move.activate
allowed-Move pending error h = Move.test_failed
allowed-Move active disabled h = Move.deactivate
allowed-Move active error h = Move.health_failed
allowed-Move error pending h = Move.test_succeeded
allowed-Move disabled pending h = Move.reenable
allowed-Move (other x) (other y) h = absurd (ground (arith, eq_iff y x))
allowed-Move s t h = cc

-- `assert_transition` allows exactly the arrows of the life cycle: an unknown word, a move to the
-- same status and every pair outside the drawing are refused.
pub assert_transition_iff : (s t : Status) → (assert_transition s t ≡ allowed) ↔ Move s t
assert_transition_iff s t = (allowed-Move s t, Move-allowed)

OperatorMove-allowed : {s t : Status} → OperatorMove s t → assert_patch_transition s t ≡ allowed
unfolding assert_patch_transition status_eq
OperatorMove-allowed OperatorMove.deactivate = refl
OperatorMove-allowed OperatorMove.reenable = refl

allowed-OperatorMove : (s t : Status) → assert_patch_transition s t ≡ allowed → OperatorMove s t
unfolding assert_patch_transition status_eq
allowed-OperatorMove active disabled h = OperatorMove.deactivate
allowed-OperatorMove disabled pending h = OperatorMove.reenable
allowed-OperatorMove pending active h = cc
allowed-OperatorMove error pending h = cc
allowed-OperatorMove (other x) (other y) h = absurd (ground (arith, eq_iff y x))
allowed-OperatorMove s t h = cc

-- A PATCH may take exactly the operator's two arrows, so it can neither activate a connection nor
-- clear or raise an error.
pub assert_patch_transition_iff :
    (s t : Status) → (assert_patch_transition s t ≡ allowed) ↔ OperatorMove s t
assert_patch_transition_iff s t = (allowed-OperatorMove s t, OperatorMove-allowed)

-- Each arrow of the operator is an arrow of the life cycle.
pub OperatorMove-Move : {s t : Status} → OperatorMove s t → Move s t
OperatorMove-Move OperatorMove.deactivate = Move.deactivate
OperatorMove-Move OperatorMove.reenable = Move.reenable
