-- ===== src/Cutover/State.antt =====
-- The data of a database cutover: the durable plan, its states, what a reconciliation observes and
-- the exceptions (odooctl/odoo/db_swap.py).
use odooctl.Prelude.{ℕ, String, Bool, true, false, Option, none, some}
use odooctl.Prelude.Results.{Result}

pub record Plan : Type 0 where
  pub cutover_id : String
  pub incoming_db : String
  pub target_db : String
  pub aside_db : String
  pub incoming_oid : ℕ
  pub target_oid : Option ℕ
  pub maintenance_db : String

pub data State : Type 0 where
  ready target_moved_aside promoted finalized conflict unknown : State

pub record Status : Type 0 where
  pub plan : Plan
  pub state : State
  pub observed_incoming_oid : Option ℕ
  pub observed_target_oid : Option ℕ
  pub observed_aside_oid : Option ℕ
  pub observation_complete : Bool

-- The property `promoted`: `None` where the state does not tell.
abbrev pub promoted_state : State → Option Bool
promoted_state promoted = some true
promoted_state finalized = some true
promoted_state ready = some false
promoted_state target_moved_aside = some false
promoted_state _ = none

abbrev pub status_promoted : Status → Option Bool
status_promoted status = promoted_state status.state

-- `if status.promoted:`
abbrev pub truthy : Option Bool → Bool
truthy (some b) = b
truthy none = false

abbrev pub is_promoted : Status → Bool
is_promoted status = truthy (status_promoted status)

-- `DatabaseCutoverError` and its two subclasses.
pub data Kind : Type 0 where
  plain conflicting cleanup : Kind

pub record CutoverError : Type 0 where
  pub kind : Kind
  pub message : String
  pub status : Status

-- A cleanup error is built with `promoted=True`.
abbrev pub error_promoted : CutoverError → Option Bool
error_promoted e = elim e.kind [ cleanup ↦ some true | _ ↦ status_promoted e.status ]

pub data Failure : Type 0 where
  value_error : String → Failure
  runtime_error : String → Failure
  type_error : String → Failure
  -- whatever a call of the adapter raised
  adapter_error : Failure
  cutover_error : CutoverError → Failure
  fence_error : String → Failure

abbrev pub unknown_cutover_status : Plan → Status
unknown_cutover_status plan = record {
  plan = plan;
  state = unknown;
  observed_incoming_oid = none;
  observed_target_oid = none;
  observed_aside_oid = none;
  observation_complete = false;
}

abbrev pub conflict_status : Plan → Option ℕ → Option ℕ → Option ℕ → Status
conflict_status plan incoming_oid target_oid aside_oid = record {
  plan = plan;
  state = conflict;
  observed_incoming_oid = incoming_oid;
  observed_target_oid = target_oid;
  observed_aside_oid = aside_oid;
  observation_complete = true;
}

abbrev pub cutover_failed : Kind → String → Status → Failure
cutover_failed kind message status =
    cutover_error (record { kind = kind; message = message; status = status })

-- A pure function that may raise.
abbrev pub Checked : Type 0 → Type 0
Checked = Result Failure
