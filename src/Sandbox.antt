-- ===== src/Sandbox.antt =====
-- packages/sandbox/src/index.ts, with the sandbox policy of packages/contracts/src/index.ts: which
-- sandbox a run gets. A verifier asks a runtime outside the repository; what its `verify` gives is
-- part of the provider: an error, or a status.
pub mod Safety
mod Examples
use vibe_go.Base.{
  ℕ, String, Bool, true, false, not, ◌&&◌, ◌||◌, Option, none, some, List, [], ◌∷◌, ◌=s◌, ltb, leb,
  if◌then◌else◌, any, max_safe_integer,
}

pub data SandboxRuntime : Type 0 where
  docker podman vm : SandboxRuntime

pub data TaskTrust : Type 0 where
  trusted_workspace untrusted_content : TaskTrust

pub data SandboxNetwork : Type 0 where
  restricted enabled : SandboxNetwork

-- `SandboxPolicy`; the constructors carry what their mode has.
pub data SandboxPolicy : Type 0 where
  read_only : SandboxNetwork → SandboxPolicy
  workspace_write : List String → SandboxNetwork → SandboxPolicy
  external_sandbox : SandboxRuntime → SandboxNetwork → Option (List String) → SandboxPolicy
  danger_full_access : SandboxPolicy

pub data Mode : Type 0 where
  read_only_mode workspace_write_mode external_sandbox_mode danger_full_access_mode : Mode

-- A value that a status reports where a network mode, an isolation or a number should stand.
pub data ReportedNetwork : Type 0 where
  network : SandboxNetwork → ReportedNetwork
  unknown_network : ReportedNetwork

pub data ReportedIsolation : Type 0 where
  container vm_isolation unknown_isolation : ReportedIsolation

pub data ReportedLimit : Type 0 where
  whole : ℕ → ReportedLimit
  other : ReportedLimit

pub record SandboxResourceRequirements : Type 0 where
  pub max_memory_bytes : Option ℕ
  pub max_cpu_millis : Option ℕ

pub record SandboxCapabilities : Type 0 where
  pub runtime : SandboxRuntime
  pub version : String
  pub isolation : ReportedIsolation
  pub network_modes : List ReportedNetwork
  pub max_memory_bytes : Option ReportedLimit
  pub max_cpu_millis : Option ReportedLimit

pub record SandboxProviderStatus : Type 0 where
  pub healthy : Bool
  pub capabilities : Option SandboxCapabilities

pub data Verified : Type 0 where
  thrown : Verified
  status : SandboxProviderStatus → Verified

pub record SandboxProviderVerifier : Type 0 where
  pub runtime : SandboxRuntime
  pub verify : Verified

pub record SandboxResolveRequest : Type 0 where
  pub task_trust : TaskTrust
  pub policy : SandboxPolicy
  pub explicit_danger_full_access : Bool
  pub resources : Option SandboxResourceRequirements

pub record ResolvedSandbox : Type 0 where
  pub mode : Mode
  pub network : Option SandboxNetwork
  pub provider : Option SandboxRuntime
  pub capabilities : Option SandboxCapabilities

pub data SandboxUnavailableReason : Type 0 where
  provider_missing provider_unhealthy capability_mismatch : SandboxUnavailableReason
  untrusted_host_fallback danger_full_access_not_explicit danger_full_access_untrusted :
      SandboxUnavailableReason

pub data Resolution : Type 0 where
  resolved : ResolvedSandbox → Resolution
  unavailable : SandboxUnavailableReason → Resolution

abbrev pub same_runtime : SandboxRuntime → SandboxRuntime → Bool
same_runtime docker docker = true
same_runtime podman podman = true
same_runtime vm vm = true
same_runtime _ _ = false

abbrev pub same_network : SandboxNetwork → ReportedNetwork → Bool
same_network restricted (network restricted) = true
same_network enabled (network enabled) = true
same_network _ _ = false

abbrev pub is_untrusted : TaskTrust → Bool
is_untrusted untrusted_content = true
is_untrusted trusted_workspace = false

-- `map.get(runtime)`
pub get : SandboxRuntime → List SandboxProviderVerifier → Option SandboxProviderVerifier
get r [] = none
get r (p ∷ ps) = if same_runtime p.runtime r then some p else get r ps

-- The constructor; `none` is the error for a runtime that is registered twice.
pub new :
    List SandboxProviderVerifier
    → List SandboxProviderVerifier
    → Option (List SandboxProviderVerifier)
unfolding get
new providers [] = some providers
new providers (p ∷ ps) = elim (get p.runtime providers) [
  | some q ↦ none
  | none ↦ new (p ∷ providers) ps
]

is_unknown_network : ReportedNetwork → Bool
is_unknown_network unknown_network = true
is_unknown_network (network n) = false

is_unknown_isolation : ReportedIsolation → Bool
is_unknown_isolation unknown_isolation = true
is_unknown_isolation _ = false

abbrev is_none_reported : List ReportedNetwork → Bool
is_none_reported [] = true
is_none_reported (n ∷ ns) = false

-- A reported limit that is given must be a positive safe integer.
bad_limit : Option ReportedLimit → Bool
bad_limit none = false
bad_limit (some (whole n)) = not (ltb 0 n && leb n max_safe_integer)
bad_limit (some other) = true

pub is_valid_capabilities : Option SandboxCapabilities → SandboxRuntime → Bool
unfolding is_unknown_network is_unknown_isolation bad_limit
is_valid_capabilities none r = false
is_valid_capabilities (some c) r =
    if not (same_runtime c.runtime r) || (c.version =s "")
    then false
    else if is_unknown_isolation c.isolation
    then false
    else if is_none_reported c.network_modes
    then false
    else if any is_unknown_network c.network_modes
    then false
    else if bad_limit c.max_memory_bytes
    then false
    else not (bad_limit c.max_cpu_millis)

-- A limit is asked for, and what is reported is missing or lower. A report that is no whole number
-- was turned away before.
pub falls_short : Option ℕ → Option ReportedLimit → Bool
falls_short none reported = false
falls_short (some n) none = true
falls_short (some n) (some (whole m)) = ltb m n
falls_short (some n) (some other) = false

abbrev memory : Option SandboxResourceRequirements → Option ℕ
memory none = none
memory (some r) = r.max_memory_bytes

abbrev cpu : Option SandboxResourceRequirements → Option ℕ
cpu none = none
cpu (some r) = r.max_cpu_millis

pub mismatches :
    SandboxNetwork
    → Option SandboxResourceRequirements
    → SandboxCapabilities
    → SandboxRuntime
    → Bool
unfolding falls_short
mismatches n r c runtime =
    not (same_runtime c.runtime runtime)
    || not (any (same_network n) c.network_modes)
    || falls_short (memory r) c.max_memory_bytes
    || falls_short (cpu r) c.max_cpu_millis

-- The checks of a status; the capabilities where it passes.
pub healthy_capabilities : SandboxRuntime → Verified → Option SandboxCapabilities
unfolding is_valid_capabilities
healthy_capabilities r thrown = none
healthy_capabilities r (status s) =
    if s.healthy && is_valid_capabilities s.capabilities r then s.capabilities else none

pub resolve_external :
    List SandboxProviderVerifier
    → SandboxRuntime
    → SandboxNetwork
    → Option SandboxResourceRequirements
    → Resolution
unfolding get healthy_capabilities mismatches
resolve_external providers runtime n resources = elim (get runtime providers) [
  | none ↦ unavailable provider_missing
  | some p ↦ elim (healthy_capabilities p.runtime p.verify) [
    | none ↦ unavailable provider_unhealthy
    | some c ↦
        if mismatches n resources c p.runtime
        then unavailable capability_mismatch
        else resolved (record {
          mode = external_sandbox_mode;
          network = some n;
          provider = some p.runtime;
          capabilities = some c;
        })
  ]
]

-- A mode of the host, which takes no provider.
host : TaskTrust → Mode → SandboxNetwork → Resolution
host trust m n =
    if is_untrusted trust
    then unavailable untrusted_host_fallback
    else resolved (record { mode = m; network = some n; provider = none; capabilities = none })

pub resolve : List SandboxProviderVerifier → SandboxResolveRequest → Resolution
unfolding host resolve_external
resolve providers q = elim q.policy [
  | danger_full_access ↦
      if is_untrusted q.task_trust
      then unavailable danger_full_access_untrusted
      else if not q.explicit_danger_full_access
      then unavailable danger_full_access_not_explicit
      else resolved (record {
        mode = danger_full_access_mode;
        network = none;
        provider = none;
        capabilities = none;
      })
  | read_only n ↦ host q.task_trust read_only_mode n
  | workspace_write roots n ↦ host q.task_trust workspace_write_mode n
  | external_sandbox runtime n roots ↦ resolve_external providers runtime n q.resources
]
