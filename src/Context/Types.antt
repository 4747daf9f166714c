-- ===== src/Context/Types.antt =====
-- The data of the context manager.
use vibe_go.Base.{ℕ, String, Option, List, Bool}

pub data ContextSource : Type 0 where
  system_source developer_source user_source model_source : ContextSource
  tool_source workspace_source retrieval_source : ContextSource

pub data ContextTrust : Type 0 where
  trusted untrusted : ContextTrust

pub data ContextRole : Type 0 where
  system developer user assistant tool : ContextRole

pub data ContextPreservation : Type 0 where
  nothing objective approval cancellation failure snapshot : ContextPreservation

pub record ContextItem : Type 0 where
  pub id : String
  pub source : ContextSource
  pub trust : ContextTrust
  pub role : ContextRole
  pub content : String
  pub preserve : Option ContextPreservation
  pub sequence : Option ℕ

pub record ContextMessage : Type 0 where
  pub role : ContextRole
  pub content : String

-- What a caller's token estimator returns: a non-negative integer, or another number.
pub data Estimate : Type 0 where
  whole : ℕ → Estimate
  other : Estimate

pub record Options : Type 0 where
  pub max_bytes : ℕ
  pub max_tokens : ℕ
  pub max_items : ℕ
  pub token_estimator : Option (ContextMessage → Estimate)

pub record Manager : Type 0 where
  pub options : Options
  pub items : List ContextItem

pub record ContextBuildResult : Type 0 where
  pub messages : List ContextMessage
  pub dropped_item_ids : List String
  pub dropped_count : ℕ
  pub bytes : ℕ
  pub tokens : ℕ
  pub compacted : Bool

pub record CompactionInput : Type 0 where
  pub id : String
  pub summary : String
  pub sequence : ℕ

pub record CompactionResult : Type 0 where
  pub compacted : Bool
  pub summary_item_id : Option String
  pub source_seq_start : Option ℕ
  pub source_seq_end : Option ℕ
  pub source_item_ids : List String

pub data Error : Type 0 where
  invalid_limit missing_text duplicate_item too_many_items bad_sequence bad_estimate : Error
  invalid_compaction : Error
  budget : ℕ → ℕ → Error

pub data Result {ℓ} (A : Type ℓ) : Type ℓ where
  ok : A → Result A
  err : Error → Result A
