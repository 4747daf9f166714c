-- ===== src/Policy/Examples.antt =====
-- A session in which the user approves a tool that writes.
use vibe_go.Base.{◌+◌, ◌<◌, ◌≤◌, ◌≡◌, refl, ◌⊎◌, String, true, false, none, some, [], ◌∷◌}
use vibe_go.Tools.{read, write, workspace_write, ToolDescriptor, Registry, get}
use vibe_go.Base.Keyed.{find, put}
use vibe_go.Policy.{
  ToolIntent, ApprovalKey, allow, prompt, trusted_workspace, restricted, on_request, Cache,
  approved, session_approval, session_approval_granted, result, evaluate, approve, revoke, refusal,
  has_grant, decision_for_policy, grant,
}
use vibe_go.Policy.Safety.{Passes, IsGranted, evaluate-allow}
use vibe_go.Policy.Grants.{approve_lifecycle}

abbrev tool : ToolDescriptor
tool = record {
  id = "edit";
  version = "1";
  risk = write;
  summary = "edits a file";
  supported_sandbox_modes = workspace_write ∷ [];
  always_prompt = none;
}

abbrev registry : Registry
registry = tool ∷ []

abbrev intent : ToolIntent
intent = record {
  workspace_id = "w";
  tool_id = "edit";
  tool_version = "1";
  risk = write;
  command_prefix = none;
  path = some "a.ts";
  network_target = none;
  task_trust = trusted_workspace;
  sandbox_mode = workspace_write;
  sandbox_provider = none;
  network_access = restricted;
  approval_policy = on_request;
  policy_revision = "1";
  session_id = "s";
  always_prompt = false;
}

-- A concrete key for the one intent of the session.
abbrev stringify : ApprovalKey → String
stringify k = k.workspace_id

abbrev granted : Cache
granted = record { key = "w"; expires_at = 110 } ∷ []

approves :
    approve stringify registry intent 100 10 10 []
    ≡ (granted, approved (result stringify allow session_approval_granted intent))
unfolding approve evaluate refusal get find has_grant decision_for_policy grant put
approves = refl

approve_lifecycle_example :
    (50 < 10 + 100
      → (evaluate stringify registry intent 50 granted).1
        ≡ result stringify allow session_approval intent)
    × (10 + 100 ≤ 50 → (evaluate stringify registry intent 50 granted).1.decision ≡ prompt)
    × (50 < 10 + 100
        → false ≡ true
        → (evaluate stringify registry intent 60
            (evaluate stringify registry intent 50 granted).0).1.decision
          ≡ prompt)
    × (50 < 10 + 100 → false ≡ false → (evaluate stringify registry intent 50 granted).0 ≡ granted)
    × ((evaluate stringify registry intent 60 (revoke stringify intent granted)).1.decision
        ≡ prompt)
approve_lifecycle_example =
    approve_lifecycle stringify registry intent 100 10 10 50 60 [] granted
      (result stringify allow session_approval_granted intent) approves

allows : (evaluate stringify registry intent 50 granted).1.decision ≡ allow
unfolding evaluate refusal get find has_grant result
allows = refl

evaluate-allow_example :
    (d : ToolDescriptor) × (get "edit" "1" registry ≡ some d)
    × Passes stringify intent d
    × ((intent.risk ≡ read) ⊎ IsGranted stringify intent 50 granted)
evaluate-allow_example = evaluate-allow stringify intent registry 50 granted allows
