-- ===== src/Permissions/Checks.antt =====
-- The schema of a profile, packages/contracts/src/permission-profile.ts, and `validateSessionGrant` of
-- packages/policy/src/permission-profile.ts. The capability revision and the time of a profile are left
-- out.
use vibe_go.Base.{
  ℕ, String, Bool, true, false, not, ◌&&◌, ◌||◌, Option, none, some, ◌=s◌, leb, if◌then◌else◌,
}
use vibe_go.Permissions.Types.{
  Profile, GrantScope, SessionGrant, ApplicationInput, Schemas, workspace_coding, full_host,
  enabled_mode, session_auto, untrusted, active_grant, revoked_grant, exhausted_grant, ReasonCode,
  stale_policy, stale_profile_revision, policy_denied, session_grant_required,
  session_grant_expired, session_grant_revoked, session_grant_exhausted, invalid_request,
}
use vibe_go.Permissions.Tests.{
  host_capable, is_host_files, is_external, is_host_process, same_profile_id, same_files,
  same_process, same_network, same_mcp, same_posture, same_trust, same_status, same_text, truthy,
}

-- The rules that `PermissionProfileSchema` adds to the types of the fields.
unfoldable pub is_consistent : Profile → Bool
is_consistent p =
    not (is_external p.process_scope && not (truthy p.sandbox_revision))
    && not (is_host_process p.process_scope && not (is_host_files p.filesystem_scope))
    && not (same_profile_id p.profile_id workspace_coding && host_capable p)
    && not (same_profile_id p.profile_id full_host && not (host_capable p))
    && not (host_capable p && not p.requires_confirmation)
    && not (host_capable p && same_trust p.task_trust untrusted)
    && not (same_network p.network_mode enabled_mode && not p.requires_confirmation)
    && not (
        same_posture p.approval_posture session_auto
        && (not (host_capable p)
            || not p.requires_confirmation
            || same_trust p.task_trust untrusted))

abbrev pub all_opaque : Schemas → Option String → Bool
all_opaque k none = true
all_opaque k (some s) = k.is_opaque_id s

unfoldable pub parses_profile : Schemas → Profile → Bool
parses_profile k p =
    all_opaque k p.workspace_id
    && k.is_opaque_id p.policy_revision
    && all_opaque k p.sandbox_revision
    && k.is_opaque_id p.profile_revision
    && is_consistent p

abbrev pub expected_workspace : Profile → Option String
expected_workspace p = if is_host_files p.filesystem_scope then none else p.workspace_id

abbrev pub same_scope : GrantScope → Profile → Bool
same_scope s p =
    same_profile_id s.profile_id p.profile_id
    && same_text s.workspace_id (expected_workspace p)
    && same_files s.filesystem_scope p.filesystem_scope
    && same_process s.process_scope p.process_scope
    && same_network s.network_mode p.network_mode
    && same_mcp s.mcp_skill_mode p.mcp_skill_mode
    && same_trust s.task_trust p.task_trust
    && same_posture s.approval_posture session_auto

-- The tests on a grant whose ids are given and whose time is read.
unfoldable pub check_grant :
    SessionGrant → String → String → ApplicationInput → ℕ → Option ReasonCode
check_grant g session user i now =
    if not (g.session_id =s session)
      || not (session =s i.run.created_by_session_id)
      || not (g.user_id =s user)
    then some policy_denied
    else if not (g.policy_revision =s i.current_policy_revision)
    then some stale_policy
    else if not (g.profile_revision =s i.profile.profile_revision)
    then some stale_profile_revision
    else if not (same_scope g.scope i.profile)
    then some policy_denied
    else if same_status g.status revoked_grant
    then some session_grant_revoked
    else if same_status g.status exhausted_grant || leb g.max_uses g.used_uses
    then some session_grant_exhausted
    else if not (same_status g.status active_grant) || leb g.expires_at now
    then some session_grant_expired
    else none

abbrev pub check_time :
    SessionGrant → String → String → ApplicationInput → Option ℕ → Option ReasonCode
check_time g session user i none = some invalid_request
check_time g session user i (some now) = check_grant g session user i now

unfoldable pub validate_session_grant : Schemas → ApplicationInput → Option ReasonCode
validate_session_grant k i = elim i.session_grant [
  | none ↦ some session_grant_required
  | some g ↦ elim i.session_id [
    | none ↦ some session_grant_required
    | some session ↦ elim i.user_id [
      | none ↦ some session_grant_required
      | some user ↦
          if (session =s "") || (user =s "") || not (k.parses_grant g)
          then some session_grant_required
          else check_time g session user i i.now
    ]
  ]
]

abbrev pub differs : String → Option String → Bool
differs s none = false
differs s (some t) = not (s =s t)

abbrev pub both_differ : Option String → Option String → Bool
both_differ none t = false
both_differ (some s) t = differs s t
