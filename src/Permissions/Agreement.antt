-- ===== src/Permissions/Agreement.antt =====
-- What the policy compiler and the sandbox resolver are asked for a profile,
-- packages/policy/src/permission-profile.ts and packages/sandbox/src/permission-profile.ts.
use vibe_go.Base.{
  ◌≡◌, refl, Bool, true, false, ◌&&◌, Option, none, some, arith, inl, inr, Bool-cases, ℕ, ap, sym,
  ◌∙◌, if◌then◌else◌,
}
use vibe_go.Tools.{danger_full_access}
use vibe_go.Policy.{same_mode}
use vibe_go.Compiler.{Host, CompileInput, CompiledPolicy, allow, compile_policy}
use vibe_go.Compiler.Safety.{RestsOn, compile_policy-allow}
use vibe_go.Permissions.{
  sandbox_trust, run_network, off, same_network, mode_of, host_capable, ready, blocking, apply,
  resolve_permission_profile, compile_with, compile_input, ApplicationInput,
  create_permission_sandbox_request, compile_permission_profile_policy, ToolSandboxMode,
  PolicyInput, Schemas, ReasonCode,
}
use vibe_go.Permissions.Ready.{IsWithin, blocking-none, resolve_permission_profile-ready}
use vibe_go.Policy
use vibe_go.Sandbox

-- The input of the compiler for the sandbox mode of the run itself.
abbrev pub run_input : PolicyInput → CompileInput
run_input x = record (compile_input x (apply x.application none) x.application.profile) {
  sandbox_mode = mode_of x.application.run.sandbox;
}

mode_for_host :
    (b : Bool) (m : ToolSandboxMode)
    → b ≡ same_mode m danger_full_access
    → (if b then danger_full_access else m) ≡ m
mode_for_host true m e = ground (arith, e)
mode_for_host false m e = refl

compile_input-run_input :
    (k : Schemas) (x : PolicyInput)
    → IsWithin k x.application
    → compile_input x (apply x.application none) x.application.profile ≡ run_input x
compile_input-run_input k x fine =
    ap
      (λ m. record (compile_input x (apply x.application none) x.application.profile) {
        sandbox_mode = m;
      })
      (mode_for_host (host_capable x.application.profile) (mode_of x.application.run.sandbox)
        fine.2)

some_inj : (a b : CompiledPolicy) → some a ≡ some b → a ≡ b
some_inj a b e = ground (arith, e)

compile_with-some :
    (h : Host) (x : PolicyInput) (clock : ℕ) (o : Option ReasonCode) (c : CompiledPolicy)
    → (compile_with h x clock
        (apply x.application o)
        (apply x.application o).effective_profile).compiled
      ≡ some c
    → (o ≡ none)
      × (compile_policy h (compile_input x (apply x.application none) x.application.profile) clock
          ≡ c)
compile_with-some h x clock none c e = (refl, some_inj _ c e)
compile_with-some h x clock (some code) c e = absurd (ground (arith, e))

-- What the compiler lets through for a profile is within the boundary of the run: the profile is ready,
-- and the same request is allowed for the run's own sandbox mode, network and trust, on all the
-- conditions of the compiler.
pub compile_permission_profile_policy-allow :
    (k : Schemas) (h : Host) (x : PolicyInput) (clock : ℕ) (c : CompiledPolicy)
    → (compile_permission_profile_policy k h x clock).compiled ≡ some c
    → c.decision ≡ allow
    → IsWithin k x.application
      × (c ≡ compile_policy h (run_input x) clock)
      × RestsOn h (run_input x) clock
unfolding compile_permission_profile_policy resolve_permission_profile
compile_permission_profile_policy-allow k h x clock c made allowed =
    let (free, same) = compile_with-some h x clock (blocking k x.application) c made in
    let fine = blocking-none k x.application free in
    let own = sym same ∙ ap (λ i. compile_policy h i clock) (compile_input-run_input k x fine) in
    (
      fine,
      own,
      compile_policy-allow h (run_input x) clock (sym (ap (λ p. p.decision) own) ∙ allowed),
    )

danger_sandbox :
    (p : Sandbox.SandboxPolicy)
    → same_mode (mode_of p) danger_full_access ≡ true
    → p ≡ Sandbox.danger_full_access
danger_sandbox p e = ground (arith, e)

-- For a ready profile the sandbox is asked for just the sandbox policy of the run, with the explicit
-- consent to full access when the profile asks for the host; only a profile that turns the network off
-- in a run that has it gets no sandbox.
pub create_permission_sandbox_request-ready :
    (k : Schemas) (i : ApplicationInput) (resources : Option Sandbox.SandboxResourceRequirements)
    → (resolve_permission_profile k i).status ≡ ready
    → create_permission_sandbox_request k i resources ≡ (
        if same_network i.profile.network_mode off && Policy.is_enabled (run_network i.run.sandbox)
        then none
        else some (record {
          task_trust = sandbox_trust i.run.task_trust;
          policy = i.run.sandbox;
          explicit_danger_full_access = host_capable i.profile;
          resources = resources;
        }))
unfolding create_permission_sandbox_request
create_permission_sandbox_request-ready k i resources e =
    let fine = (resolve_permission_profile-ready k i e).0 in
    elim (Bool-cases (host_capable i.profile)) [
      | inl host ↦
          let full = danger_sandbox i.run.sandbox (sym fine.2 ∙ host) in
          ground (arith, host, full, fine.0, fine.3 host, fine.4 host, fine.6, fine.7)
      | inr guest ↦ ground (arith, guest, sym fine.2 ∙ guest, fine.0, fine.5, fine.6, fine.7)
    ]
