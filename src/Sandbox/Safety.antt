-- ===== src/Sandbox/Safety.antt =====
-- When a sandbox is given out, and which.
use vibe_go.Base.{
  ℕ, ◌≤◌, ◌≡◌, refl, sym, subst, ◌∙◌, ◌↔◌, ap, inl, inr, Bool, true, false, Option, none, some,
  List, [], ◌∷◌, arith, any, Bool-cases, Option-cases,
}
use vibe_go.Sandbox.{
  SandboxRuntime, docker, podman, vm, TaskTrust, trusted_workspace, SandboxNetwork, SandboxPolicy,
  read_only, workspace_write, external_sandbox, danger_full_access, Mode, read_only_mode,
  workspace_write_mode, external_sandbox_mode, danger_full_access_mode, ReportedLimit, whole, other,
  SandboxResourceRequirements, SandboxCapabilities, Verified, status, thrown,
  SandboxProviderVerifier, SandboxResolveRequest, ResolvedSandbox, resolved, same_runtime,
  same_network, is_untrusted, get, is_valid_capabilities, falls_short, mismatches, bad_limit,
  memory, cpu, healthy_capabilities, resolve_external, resolve, host,
}

same_runtime-eq : (a b : SandboxRuntime) → same_runtime a b ≡ true → a ≡ b
same_runtime-eq a b h = ground arith

same_runtime_refl : (a : SandboxRuntime) → same_runtime a a ≡ true
same_runtime_refl docker = refl
same_runtime_refl podman = refl
same_runtime_refl vm = refl

get-runtime :
    (r : SandboxRuntime) (ps : List SandboxProviderVerifier) (p : SandboxProviderVerifier)
    → get r ps ≡ some p
    → p.runtime ≡ r
unfolding get
get-runtime r [] p h = ground arith
get-runtime r (x ∷ ps) p h = elim (Bool-cases (same_runtime x.runtime r)) [
  | inl same ↦ ground (arith, same_runtime-eq x.runtime r same)
  | inr differs ↦ get-runtime r ps p (ground arith)
]

-- A demand that a report meets.
abbrev pub Meets : Option ℕ → Option ReportedLimit → Type 0
Meets none reported = Unit {0}
Meets (some n) reported = (m : ℕ) × (reported ≡ some (whole m)) × (n ≤ m)

-- The provider of the runtime is healthy, its report is well-formed, and it offers the network and
-- the resources.
pub record IsServed (ps : List SandboxProviderVerifier) (runtime : SandboxRuntime)
    (n : SandboxNetwork) (resources : Option SandboxResourceRequirements) (c : SandboxCapabilities)
    : Type 0 where
  pub provider : SandboxProviderVerifier
  pub registered : get runtime ps ≡ some provider
  pub verified : provider.verify ≡ status (record { healthy = true; capabilities = some c })
  pub well_formed : is_valid_capabilities (some c) runtime ≡ true
  pub runs : c.runtime ≡ runtime
  pub offers : any (same_network n) c.network_modes ≡ true
  pub memory : Meets (memory resources) c.max_memory_bytes
  pub cpu : Meets (cpu resources) c.max_cpu_millis

-- The sandboxes that a request may get.
abbrev pub IsAdmissible :
    List SandboxProviderVerifier → SandboxResolveRequest → ResolvedSandbox → Type 0
IsAdmissible ps q r = elim q.policy [
  | danger_full_access ↦
      (q.task_trust ≡ trusted_workspace)
      × (q.explicit_danger_full_access ≡ true)
      × (r ≡ record {
        mode = danger_full_access_mode;
        network = none;
        provider = none;
        capabilities = none;
      })
  | read_only n ↦
      (q.task_trust ≡ trusted_workspace)
      × (r ≡ record {
        mode = read_only_mode;
        network = some n;
        provider = none;
        capabilities = none;
      })
  | workspace_write roots n ↦
      (q.task_trust ≡ trusted_workspace)
      × (r ≡ record {
        mode = workspace_write_mode;
        network = some n;
        provider = none;
        capabilities = none;
      })
  | external_sandbox runtime n roots ↦
      (c : SandboxCapabilities) × IsServed ps runtime n q.resources c
      × (r ≡ record {
        mode = external_sandbox_mode;
        network = some n;
        provider = some runtime;
        capabilities = some c;
      })
]

trusted_of : (t : TaskTrust) → is_untrusted t ≡ false → t ≡ trusted_workspace
trusted_of t h = ground arith

healthy_capabilities-some :
    (r : SandboxRuntime) (v : Verified) (c : SandboxCapabilities)
    → healthy_capabilities r v ≡ some c
    → (v ≡ status (record { healthy = true; capabilities = some c }))
      × (is_valid_capabilities (some c) r ≡ true)
unfolding healthy_capabilities
healthy_capabilities-some r thrown c h = ground arith
healthy_capabilities-some r (status s) c h = ground arith

falls_short-Meets :
    (demand : Option ℕ) (reported : Option ReportedLimit)
    → bad_limit reported ≡ false
    → falls_short demand reported ≡ false
    → Meets demand reported
unfolding falls_short bad_limit
falls_short-Meets none reported good h = tt
falls_short-Meets (some n) none good h = absurd (ground arith)
falls_short-Meets (some n) (some (whole m)) good h = (m, refl, ground arith)
falls_short-Meets (some n) (some other) good h = absurd (ground arith)

Meets-falls_short :
    (demand : Option ℕ) (reported : Option ReportedLimit)
    → Meets demand reported
    → falls_short demand reported ≡ false
unfolding falls_short
Meets-falls_short none reported h = refl
Meets-falls_short (some n) reported (m, e, le) = rw e (ground arith)

valid_parts :
    (c : SandboxCapabilities) (r : SandboxRuntime)
    → is_valid_capabilities (some c) r ≡ true
    → (c.runtime ≡ r)
      × (bad_limit c.max_memory_bytes ≡ false)
      × (bad_limit c.max_cpu_millis ≡ false)
unfolding is_valid_capabilities
valid_parts c r h = (same_runtime-eq c.runtime r (ground arith), ground arith, ground arith)

mismatches-IsServed :
    (ps : List SandboxProviderVerifier) (r : SandboxRuntime) (n : SandboxNetwork)
    (q : Option SandboxResourceRequirements) (p : SandboxProviderVerifier) (c : SandboxCapabilities)
    → get r ps ≡ some p
    → healthy_capabilities p.runtime p.verify ≡ some c
    → mismatches n q c p.runtime ≡ false
    → IsServed ps r n q c
unfolding mismatches
mismatches-IsServed ps r n q p c there healthy fit =
    let named = get-runtime r ps p there in
    let (verified, valid) = healthy_capabilities-some p.runtime p.verify c healthy in
    let (runs, memory_good, cpu_good) = valid_parts c p.runtime valid in
    record {
      provider = p;
      registered = there;
      verified = verified;
      well_formed = subst (λ x. is_valid_capabilities (some c) x ≡ true) named valid;
      runs = runs ∙ named;
      offers = ground arith;
      memory = falls_short-Meets (memory q) c.max_memory_bytes memory_good (ground arith);
      cpu = falls_short-Meets (cpu q) c.max_cpu_millis cpu_good (ground arith);
    }

host-IsAdmissible :
    (trust : TaskTrust) (m : Mode) (n : SandboxNetwork) (r : ResolvedSandbox)
    → (host trust m n ≡ resolved r) ↔ (
        (trust ≡ trusted_workspace)
        × (r ≡ record { mode = m; network = some n; provider = none; capabilities = none }))
unfolding host
host-IsAdmissible trust m n r = ((λ h. (ground arith, ground arith)), (λ h. ground arith))

resolve_external-IsServed :
    (ps : List SandboxProviderVerifier) (t : SandboxRuntime) (n : SandboxNetwork)
    (q : Option SandboxResourceRequirements) (r : ResolvedSandbox)
    → resolve_external ps t n q ≡ resolved r
    → (c : SandboxCapabilities) × IsServed ps t n q c
      × (r ≡ record {
        mode = external_sandbox_mode;
        network = some n;
        provider = some t;
        capabilities = some c;
      })
unfolding resolve_external
resolve_external-IsServed ps t n q r h = elim (Option-cases (get t ps)) [
  | inl missing ↦ absurd (ground arith)
  | inr (p, there) ↦ elim (Option-cases (healthy_capabilities p.runtime p.verify)) [
    | inl ill ↦ absurd (ground arith)
    | inr (c, healthy) ↦ elim (Bool-cases (mismatches n q c p.runtime)) [
      | inl unfit ↦ absurd (ground arith)
      | inr fit ↦ (
        c,
        mismatches-IsServed ps t n q p c there healthy fit,
        ground (arith, get-runtime t ps p there),
      )
    ]
  ]
]

IsServed-resolve_external :
    (ps : List SandboxProviderVerifier) (t : SandboxRuntime) (n : SandboxNetwork)
    (q : Option SandboxResourceRequirements) (c : SandboxCapabilities)
    → IsServed ps t n q c
    → resolve_external ps t n q
      ≡ resolved (record {
        mode = external_sandbox_mode;
        network = some n;
        provider = some t;
        capabilities = some c;
      })
unfolding resolve_external healthy_capabilities mismatches
IsServed-resolve_external ps t n q c s =
    let named = get-runtime t ps s.provider s.registered in
    ground (
      arith,
      s.registered,
      s.verified,
      s.well_formed,
      s.runs,
      s.offers,
      named,
      same_runtime_refl t,
      Meets-falls_short (memory q) c.max_memory_bytes s.memory,
      Meets-falls_short (cpu q) c.max_cpu_millis s.cpu,
    )

request :
    TaskTrust → SandboxPolicy → Bool → Option SandboxResourceRequirements → SandboxResolveRequest
request trust policy explicit resources = record {
  task_trust = trust;
  policy = policy;
  explicit_danger_full_access = explicit;
  resources = resources;
}

policy-IsAdmissible :
    (ps : List SandboxProviderVerifier) (trust : TaskTrust) (policy : SandboxPolicy)
    (explicit : Bool) (resources : Option SandboxResourceRequirements) (r : ResolvedSandbox)
    → (resolve ps (request trust policy explicit resources) ≡ resolved r)
      ↔ IsAdmissible ps (request trust policy explicit resources) r
unfolding resolve request
policy-IsAdmissible ps trust danger_full_access explicit resources r =
    ((λ h. (ground arith, ground arith, ground arith)), (λ h. ground arith))
policy-IsAdmissible ps trust (read_only n) explicit resources r =
    host-IsAdmissible trust read_only_mode n r
policy-IsAdmissible ps trust (workspace_write roots n) explicit resources r =
    host-IsAdmissible trust workspace_write_mode n r
policy-IsAdmissible ps trust (external_sandbox t n roots) explicit resources r = (
  resolve_external-IsServed ps t n resources r,
  (λ (c, s, e). IsServed-resolve_external ps t n resources c s ∙ ap resolved (sym e)),
)

-- A sandbox is given out exactly when it is admissible. The danger-full-access mode takes a trusted
-- workspace and the explicit consent; the other modes of the host take a trusted workspace; the
-- external sandbox takes a registered provider of the runtime that is healthy, reports itself
-- soundly, and offers the network, the memory and the processor time that were asked for. In
-- particular untrusted content only ever runs in an external sandbox.
pub resolve-IsAdmissible :
    (ps : List SandboxProviderVerifier) (q : SandboxResolveRequest) (r : ResolvedSandbox)
    → (resolve ps q ≡ resolved r) ↔ IsAdmissible ps q r
unfolding request
resolve-IsAdmissible ps q r =
    policy-IsAdmissible ps q.task_trust q.policy q.explicit_danger_full_access q.resources r
