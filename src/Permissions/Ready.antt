-- ===== src/Permissions/Ready.antt =====
-- What a ready profile rests on, and what the compiler allows under it,
-- packages/policy/src/permission-profile.ts.
use vibe_go.Base.{◌&&◌, ◌≡◌, refl, Bool, true, false, Option, none, some, arith, eq_iff}
use vibe_go.Tools.{danger_full_access, external_sandbox}
use vibe_go.Policy.{same_mode}
use vibe_go.Permissions.{
  ReasonCode, validate_session_grant, session_auto, same_posture, restricted_mode, network_block,
  sandbox_block, enabled_mode, same_network, host_block, workspace_block, is_external, run_network,
  revision_block, mode_of, host_capable, schema_block, ready, parses_profile, first, apply,
  resolve_permission_profile, blocking, ApplicationInput, Schemas,
}
use vibe_go.Policy

first-none : (a b : Option ReasonCode) → first a b ≡ none → (a ≡ none) × (b ≡ none)
first-none none b e = (refl, e)
first-none (some code) b e = absurd (ground (arith, e))

-- A profile within the boundary of a run.
abbrev pub IsWithin : Schemas → ApplicationInput → Type 0
IsWithin k i =
    (parses_profile k i.profile ≡ true)
    × (i.profile.policy_revision ≡ i.current_policy_revision)
    × (host_capable i.profile ≡ same_mode (mode_of i.run.sandbox) danger_full_access)
    × (host_capable i.profile ≡ true → i.full_host_confirmed ≡ true)
    × (host_capable i.profile ≡ true → Policy.is_untrusted i.run.task_trust ≡ false)
    × (is_external i.profile.process_scope ≡ true
        → same_mode (mode_of i.run.sandbox) external_sandbox ≡ true)
    × (same_network i.profile.network_mode enabled_mode ≡ true
        → Policy.is_enabled (run_network i.run.sandbox) ≡ true)
    × (same_network i.profile.network_mode restricted_mode ≡ true
        → Policy.is_enabled (run_network i.run.sandbox) ≡ false)
    × (same_posture i.profile.approval_posture session_auto ≡ true
        → validate_session_grant k i ≡ none)

pub blocking-none : (k : Schemas) (i : ApplicationInput) → blocking k i ≡ none → IsWithin k i
unfolding blocking
blocking-none k i e =
    let (a, e1) = first-none (schema_block k i) _ e in
    let (b, e2) = first-none (revision_block i) _ e1 in
    let (c, e3) = first-none (workspace_block i) _ e2 in
    let (d, e4) = first-none (host_block i) _ e3 in
    let (s, e5) = first-none (sandbox_block i) _ e4 in
    let (n, g) = first-none (network_block i) _ e5 in
    (
      ground (arith, a),
      ground (arith, b, eq_iff i.profile.policy_revision i.current_policy_revision),
      ground (arith, d),
      (λ h. ground (arith, d, h)),
      (λ h. ground (arith, d, h)),
      (λ h. ground (arith, s, h)),
      (λ h. ground (arith, n, h)),
      (λ h. ground (arith, n, h)),
      (λ h. ground (arith, g, h)),
    )

apply-ready : (i : ApplicationInput) (o : Option ReasonCode) → (apply i o).status ≡ ready → o ≡ none
apply-ready i none e = refl
apply-ready i (some code) e = absurd (ground (arith, e))

confirmed : (h c : Bool) → (h ≡ true → c ≡ true) → (h && c) ≡ h
confirmed true c f = f refl
confirmed false c f = refl

-- A profile is ready only within the boundary of the run: it is consistent, of the current revision and
-- asks for the host exactly in a run with full access, which is confirmed and trusted; it asks for an
-- external sandbox or the network only where the run has them, and a session-auto posture has a valid
-- grant. The application then allows the network of the run, and confirms full access for the host only.
pub resolve_permission_profile-ready :
    (k : Schemas) (i : ApplicationInput)
    → (resolve_permission_profile k i).status ≡ ready
    → IsWithin k i
      × ((resolve_permission_profile k i).effective_profile ≡ some i.profile)
      × ((resolve_permission_profile k i).network_access ≡ run_network i.run.sandbox)
      × ((resolve_permission_profile k i).danger_full_access_confirmed ≡ host_capable i.profile)
unfolding resolve_permission_profile
resolve_permission_profile-ready k i e =
    let free = apply-ready i (blocking k i) e in
    let fine = blocking-none k i free in
    rw free (fine, refl, refl, confirmed (host_capable i.profile) i.full_host_confirmed fine.3)
