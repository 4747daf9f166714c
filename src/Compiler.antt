-- ===== src/Compiler.antt =====
-- packages/policy/src/compiler.ts: the decision on one request of a tool, and the bounded store of grants
-- (Compiler/Store). Inputs are typed, so the tests that a value is one of its type are left out, and the
-- schema of a tool is only its state (`Host`). `clock` is what `Date.now()` reads.
mod Types
mod Store
mod Denials
pub mod Safety
pub mod Granting
pub mod Uses
mod Examples
pub use Types.*
unfoldable pub use Store.*
use Prim.Native.String.{◌++◌ as ◌+s◌}
use vibe_go.Base.{
  ℕ, String, Bool, true, false, not, ◌&&◌, ◌||◌, Option, none, some, List, [], ◌∷◌, ◌==◌, ◌=s◌, leb,
  if◌then◌else◌, length, any, max_safe_integer,
}
use vibe_go.Base.Text.{codes, all_in, has_shape, is_letter, is_digit, is_hex}
use vibe_go.Tools.{
  ToolRisk, read, write, destructive, network, read_only, workspace_write, external_sandbox,
  danger_full_access, ToolDescriptor, get,
}
use vibe_go.Policy.{
  TaskTrust, trusted_workspace, SandboxProvider, restricted, ApprovalPolicyConfig, never, granular,
  same_risk, same_mode, is_untrusted, is_enabled,
}

unfoldable pub reason_of : ReasonCode → String
reason_of read_only_work = "Read-only work is allowed by the server policy."
reason_of session_grant = "An exact, bounded session grant applies to this request."
reason_of user_approval_required = "User approval is required for this request."
reason_of client_requested_approval = "The client requested an additional approval step."
reason_of client_denied = "The client denied this request."
reason_of network_approval_required = "Network access requires an explicit user amendment."
reason_of unknown_tool = "The requested tool is not registered."
reason_of schema_unavailable = "The registered tool has no validated input schema."
reason_of schema_unsafe = "The registered tool schema contains unsafe metadata."
reason_of risk_mismatch = "The requested risk does not match the registered tool."
reason_of sandbox_unsupported = "The selected sandbox does not support this tool."
reason_of sandbox_provider_required = "An external sandbox provider is required."
reason_of sandbox_provider_mismatch = "The sandbox provider does not match the selected mode."
reason_of untrusted_requires_external_sandbox = "Untrusted content requires an external sandbox."
reason_of untrusted_network_forbidden =
    "Untrusted content cannot use network access in this policy."
reason_of danger_full_access_forbidden =
    "Full host access requires an explicit user-only confirmation."
reason_of privilege_forbidden = "Privilege changes are not permitted by this policy."
reason_of workspace_scope_forbidden = "Writes outside the selected workspace are not permitted."
reason_of network_disabled = "Network access is disabled by the effective policy."
reason_of approval_disabled = "Approval is disabled for this request."
reason_of permission_request_disabled = "The configured policy does not permit permission requests."
reason_of stale_policy_revision = "The policy revision is stale and must be re-evaluated."
reason_of invalid_argument_fingerprint = "The argument fingerprint is invalid."
reason_of invalid_policy_input = "The policy input is invalid."
reason_of grant_key_mismatch = "The approval grant does not match this exact request."
reason_of grant_expired = "The approval grant has expired."
reason_of grant_exhausted = "The approval grant has no remaining uses."
reason_of grant_not_eligible = "This request is not eligible for automatic approval."
reason_of destructive_operation = "Destructive work requires an explicit sandbox and approval."

abbrev pub is_id_start : ℕ → Bool
is_id_start c = is_letter c || is_digit c

abbrev pub is_id_char : ℕ → Bool
is_id_char c =
    is_id_start c
    || (c == b'_')
    || (c == b'.')
    || (c == b':')
    || (c == b'@')
    || (c == b'/')
    || (c == b'-')

-- `SAFE_ID`; its characters are no control characters.
unfoldable pub is_safe_id : String → Bool
is_safe_id s = has_shape is_id_start is_id_char 127 (codes s) && is_plain (codes s)

-- `SAFE_FINGERPRINT`
unfoldable pub is_fingerprint : String → Bool
is_fingerprint s = all_in is_hex (codes s) && (length (codes s) == 64)

-- `!isSafeTimestamp(input.now)` for a `now` that is given
abbrev bad_now : Option ℕ → Bool
bad_now none = false
bad_now (some n) = not (leb n max_safe_integer)

abbrev pub bad_ids : CompileInput → Bool
bad_ids i =
    not (is_safe_id i.workspace_id)
    || not (is_safe_id i.tool_id)
    || not (is_safe_id i.tool_version)
    || not (is_safe_id i.session_id)

unfoldable pub validate_input : CompileInput → Option ReasonCode
unfolding is_safe_id is_fingerprint
validate_input i =
    if not (is_fingerprint i.arguments_fingerprint)
    then some invalid_argument_fingerprint
    else if bad_ids i
    then some invalid_policy_input
    else if not (is_safe_revision i.policy_revision)
        || not (is_safe_revision i.current_policy_revision)
    then some invalid_policy_input
    else if bad_now i.now
    then some invalid_policy_input
    else none

abbrev pub key_fields : CompileInput → KeyFields
key_fields i = record {
  workspace_id = i.workspace_id;
  tool_id = i.tool_id;
  tool_version = i.tool_version;
  risk = i.risk;
  task_trust = i.task_trust;
  sandbox_mode = i.sandbox_mode;
  sandbox_provider = i.sandbox_provider;
  network_access = i.network_access;
  policy_revision = i.policy_revision;
  session_id = i.session_id;
  arguments_fingerprint = i.arguments_fingerprint;
}

unfoldable pub validate_key_input : KeyFields → Bool
unfolding is_safe_id is_fingerprint
validate_key_input k =
    is_safe_id k.workspace_id
    && is_safe_id k.tool_id
    && is_safe_id k.tool_version
    && is_safe_id k.session_id
    && is_safe_revision k.policy_revision
    && is_fingerprint k.arguments_fingerprint

abbrev pub subject_of : CompileInput → Subject
subject_of i = record {
  workspace_id = i.workspace_id;
  tool_id = i.tool_id;
  tool_version = i.tool_version;
  risk = i.risk;
  task_trust = i.task_trust;
  sandbox_mode = i.sandbox_mode;
  sandbox_provider = i.sandbox_provider;
  network_access = i.network_access;
  policy_revision = i.policy_revision;
  arguments_fingerprint = i.arguments_fingerprint;
}

unfoldable pub result : Subject → String → Decision → ReasonCode → Option Grant → CompiledPolicy
unfolding reason_of
result s key d code g = record {
  decision = d;
  reason_code = code;
  reason = reason_of code;
  approval_key = key;
  effective = record { sandbox_mode = s.sandbox_mode; network_access = s.network_access };
  audit = record { subject = s; decision = d; reason_code = code; reason = reason_of code };
  grant = g;
}

-- `invalidResult`
unfoldable pub invalid_result : ReasonCode → CompiledPolicy
unfolding result
invalid_result code =
    result
      (record {
        workspace_id = "invalid";
        tool_id = "invalid";
        tool_version = "invalid";
        risk = read;
        task_trust = trusted_workspace;
        sandbox_mode = read_only;
        sandbox_provider = none;
        network_access = restricted;
        policy_revision = "invalid";
        arguments_fingerprint = "invalid";
      })
      "approval.v1.invalid" deny code none

abbrev pub given {ℓ} : {A : Type ℓ} → Option A → Bool
given none = false
given (some a) = true

abbrev pub is_outside : Option WriteScope → Bool
is_outside (some outside_workspace) = true
is_outside _ = false

abbrev pub is_explicit : Option NetworkApproval → Bool
is_explicit (some explicit) = true
is_explicit _ = false

abbrev pub is_approval_disabled : Option ApprovalPolicyConfig → Bool
is_approval_disabled (some never) = true
is_approval_disabled _ = false

abbrev pub is_permission_request_disabled : Option ApprovalPolicyConfig → Bool
is_permission_request_disabled (some (granular g)) = not g.permission_request
is_permission_request_disabled _ = false

unfoldable pub is_grant_eligible : CompileInput → Bool
is_grant_eligible i =
    same_risk i.risk write
    && not (is_untrusted i.task_trust)
    && same_mode i.sandbox_mode workspace_write
    && not (is_outside i.write_scope)
    && not i.privilege_requested
    && not (is_enabled i.network_access)

-- The client can only tighten the decision.
unfoldable pub apply_client_decision : CompileInput → CompiledPolicy → CompiledPolicy
unfolding result
apply_client_decision i p = elim i.client_requested_decision [
  | none ↦ p
  | some allow ↦ p
  | some ask ↦ elim p.decision [
    | allow ↦ result (subject_of i) p.approval_key ask client_requested_approval p.grant
    | _ ↦ p
  ]
  | some deny ↦ elim p.decision [
    | deny ↦ p
    | _ ↦ result (subject_of i) p.approval_key deny client_denied p.grant
  ]
]

abbrev pub time_of : ℕ → Option ℕ → ℕ
time_of clock none = clock
time_of clock (some n) = n

-- What the server decides, with the grant that an `allow` rests on, before the client is asked.
pub record Ruling : Type 0 where
  pub decision : Decision
  pub code : ReasonCode
  pub grant : Option Grant

abbrev pub rule : Decision → ReasonCode → Ruling
rule d code = record { decision = d; code = code; grant = none }

unfoldable pub evaluate_grant : CompileInput → String → ℕ → Grant → Ruling
unfolding is_grant_eligible
evaluate_grant i key clock g =
    if not (g.approval_key =s key)
    then rule deny grant_key_mismatch
    else if not (g.policy_revision =s i.current_policy_revision)
    then rule deny stale_policy_revision
    else if leb g.expires_at (time_of clock i.now)
    then rule ask grant_expired
    else if leb g.remaining_uses 0
    then rule ask grant_exhausted
    else if not (is_grant_eligible i)
    then rule deny grant_not_eligible
    else record { decision = allow; code = session_grant; grant = some g }

-- The end of `compilePolicy`: no grant is given.
unfoldable pub default_ruling : CompileInput → Ruling
default_ruling i =
    if same_mode i.sandbox_mode danger_full_access && not (same_risk i.risk read)
    then rule ask danger_full_access_forbidden
    else if same_risk i.risk read
    then rule allow read_only_work
    else if same_risk i.risk destructive && not (same_mode i.sandbox_mode external_sandbox)
    then rule deny destructive_operation
    else rule ask user_approval_required

-- The denials that come before the client is heard.
abbrev pub sandbox_denial : CompileInput → ToolDescriptor → Option ReasonCode
sandbox_denial i d =
    if not (same_risk d.risk i.risk)
    then some risk_mismatch
    else if not (any (λ m. same_mode m i.sandbox_mode) d.supported_sandbox_modes)
    then some sandbox_unsupported
    else if same_mode i.sandbox_mode external_sandbox && not (given i.sandbox_provider)
    then some sandbox_provider_required
    else if not (same_mode i.sandbox_mode external_sandbox) && given i.sandbox_provider
    then some sandbox_provider_mismatch
    else if is_untrusted i.task_trust && not (same_mode i.sandbox_mode external_sandbox)
    then some untrusted_requires_external_sandbox
    else none

abbrev pub scope_denial : CompileInput → Option ReasonCode
scope_denial i =
    if same_mode i.sandbox_mode danger_full_access && not i.danger_full_access_confirmed
    then some danger_full_access_forbidden
    else if i.privilege_requested
    then some privilege_forbidden
    else if is_outside i.write_scope
    then some workspace_scope_forbidden
    else if not (i.policy_revision =s i.current_policy_revision)
    then some stale_policy_revision
    else none

abbrev pub network_denial : CompileInput → Option ReasonCode
network_denial i =
    if same_risk i.risk network && is_untrusted i.task_trust
    then some untrusted_network_forbidden
    else if same_risk i.risk network && not (is_enabled i.network_access)
    then some network_disabled
    else none

abbrev pub approval_denial : CompileInput → Option ReasonCode
approval_denial i =
    if not (same_risk i.risk read) && is_approval_disabled i.approval_policy
    then some approval_disabled
    else if not (same_risk i.risk read) && is_permission_request_disabled i.approval_policy
    then some permission_request_disabled
    else none

abbrev pub or_deny : Option ReasonCode → Ruling → Ruling
or_deny none next = next
or_deny (some code) next = rule deny code

module _ (h : Host) where
  unfoldable pub create_policy_approval_key : KeyFields → String
  create_policy_approval_key k =
      if validate_key_input k
      then "approval.v1." +s h.sha256 (h.stringify k)
      else "approval.v1.invalid"

  abbrev pub key_of : CompileInput → String
  key_of i = create_policy_approval_key (key_fields i)

  abbrev pub schema_denial : SchemaState → Option ReasonCode
  schema_denial unavailable = some schema_unavailable
  schema_denial unsafe = some schema_unsafe
  schema_denial safe = none

  unfoldable pub by_grant : CompileInput → ℕ → Ruling
  by_grant i clock = elim i.grant [
    | none ↦ default_ruling i
    | some g ↦ evaluate_grant i (key_of i) clock g
  ]

  -- What follows the denials that do not depend on the approval.
  abbrev pub after_denials : CompileInput → ℕ → Ruling
  after_denials i clock =
      if same_risk i.risk network && not (is_explicit i.network_approval)
      then rule ask network_approval_required
      else or_deny (approval_denial i) (by_grant i clock)

  unfoldable pub tool_ruling : CompileInput → ℕ → ToolDescriptor → Ruling
  tool_ruling i clock d = or_deny (schema_denial (h.schema_state d)) (
      or_deny (sandbox_denial i d)
        (or_deny (scope_denial i) (or_deny (network_denial i) (after_denials i clock))))

  unfoldable pub ruling : CompileInput → ℕ → Ruling
  ruling i clock = elim (get i.tool_id i.tool_version i.registry) [
    | none ↦ rule deny unknown_tool
    | some d ↦ tool_ruling i clock d
  ]

  unfoldable pub compile_policy : CompileInput → ℕ → CompiledPolicy
  compile_policy i clock = elim (validate_input i) [
    | some code ↦ invalid_result code
    | none ↦ apply_client_decision i (
        result (subject_of i) (key_of i) (ruling i clock).decision (ruling i clock).code
          (ruling i clock).grant)
  ]
