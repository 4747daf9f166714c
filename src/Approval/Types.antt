-- ===== src/Approval/Types.antt =====
-- The data of the approval broker.
use vibe_go.Base.{ℕ, String, Option, List}

pub data ApprovalDecision : Type 0 where
  allow deny : ApprovalDecision

pub data DecisionResult : Type 0 where
  accepted not_found already_decided was_expired : DecisionResult

pub data SandboxProvider : Type 0 where
  docker podman vm : SandboxProvider

pub data Network : Type 0 where
  restricted enabled : Network

pub record ApprovalDetails : Type 0 where
  pub sandbox_provider : Option SandboxProvider
  pub sandbox_image_digest : Option String
  pub network : Option Network
  pub command : Option String

pub data Risk : Type 0 where
  read write destructive network : Risk

pub record ApprovalRequest : Type 0 where
  pub approval_id : String
  pub run_id : String
  pub turn_id : String
  pub call_id : String
  pub tool_id : String
  pub tool_version : String
  pub risk : Risk
  pub argument_bytes : ℕ
  pub details : Option ApprovalDetails
  pub created_at : ℕ
  pub expires_at : ℕ

-- `resolve`, `reject`, `timer` and `signal` of the entry belong to its ticket.
pub record PendingEntry : Type 0 where
  pub request : ApprovalRequest
  pub ticket : ℕ

-- Also how a promise ends: `cancelled` rejects it, the others resolve it.
pub data HistoryState : Type 0 where
  allowed denied expired cancelled : HistoryState

pub record HistoryEntry : Type 0 where
  pub approval_id : String
  pub run_id : String
  pub state : HistoryState

-- A timer or a listener: its callback acts on the approval id.
pub record Hook : Type 0 where
  pub ticket : ℕ
  pub approval_id : String

pub data Signal : Type 0 where
  unwatched watched aborted : Signal

pub record Options : Type 0 where
  pub timeout_ms : Option ℕ
  pub max_pending : Option ℕ
  pub max_history : Option ℕ

pub record Broker : Type 0 where
  pub timeout_ms : ℕ
  pub max_pending : ℕ
  pub max_history : ℕ
  pub pending : List PendingEntry
  pub history : List HistoryEntry
  pub next_ticket : ℕ
  pub settled : List (ℕ × HistoryState)
  pub timers : List Hook
  pub listeners : List Hook

-- What `waitForDecision` returns: a promise that is settled already, or one that waits.
pub data Waited : Type 0 where
  rejected_capacity rejected_in_use resolved_expired rejected_cancelled : Waited
  waits : ℕ → Waited
