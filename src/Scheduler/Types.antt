-- ===== src/Scheduler/Types.antt =====
-- The data of the scheduler: requests, the policy, leases, queue and active entries, and the state.
use vibe_go.Base.{ℕ, String, Option, List}

pub data Access : Type 0 where
  read write : Access

pub data Priority : Type 0 where
  interactive background : Priority

pub data ResourceKind : Type 0 where
  model_calls tool_processes external_sandboxes : ResourceKind

-- A JavaScript number: `Number.isInteger(n) && n >= 0` holds of `whole` only.
pub data Amount : Type 0 where
  whole : ℕ → Amount
  other : Amount

pub record Resources : Type 0 where
  pub model_calls : Option Amount
  pub tool_processes : Option Amount
  pub external_sandboxes : Option Amount

pub record Request : Type 0 where
  pub run_id : String
  pub workspace_id : String
  pub workspace_access : Access
  pub resources : Resources
  pub priority : Option Priority

pub data WorkspaceWriteMode : Type 0 where
  exclusive worktree_only : WorkspaceWriteMode

pub record Policy : Type 0 where
  pub max_active_runs : ℕ
  pub max_active_model_calls : ℕ
  pub max_active_tool_processes : ℕ
  pub max_external_sandboxes : ℕ
  pub workspace_write_mode : WorkspaceWriteMode

pub record WorkspaceLease : Type 0 where
  pub workspace_id : String
  pub mode : Access
  pub holder_run_id : String
  pub acquired_at : ℕ

-- `serial` is the identity of the lease object, which its `released` flag belongs to.
pub record Lease : Type 0 where
  pub serial : ℕ
  pub run_id : String
  pub workspace_lease : WorkspaceLease
  pub model_calls : ℕ
  pub tool_processes : ℕ
  pub external_sandboxes : ℕ

pub record QueueEntry : Type 0 where
  pub request : Request
  pub order : ℕ

pub record ActiveEntry : Type 0 where
  pub request : Request
  pub lease : Lease

pub data Settlement : Type 0 where
  resolved : Lease → Settlement
  cancelled : ℕ → Settlement

pub record Scheduler : Type 0 where
  pub policy : Policy
  pub active : List ActiveEntry
  pub queue : List QueueEntry
  pub order : ℕ
  pub settled : List Settlement
  pub released : List ℕ

pub data Rejection : Type 0 where
  duplicate_run unsatisfiable : Rejection

pub data Acquired : Type 0 where
  rejected : Rejection → Acquired
  promised : ℕ → Acquired
