-- ===== src/Sandbox/Examples.antt =====
-- A request for a docker sandbox without a network.
use vibe_go.Base.{◌≡◌, ◌↔◌, refl, true, false, none, some, List, [], ◌∷◌}
use vibe_go.Sandbox.{
  SandboxProviderVerifier, SandboxResolveRequest, ResolvedSandbox, SandboxCapabilities, docker,
  container, network, restricted, untrusted_content, external_sandbox, external_sandbox_mode, whole,
  status, resolve, resolved,
}
use vibe_go.Sandbox.Safety.{IsAdmissible, resolve-IsAdmissible}

abbrev capabilities : SandboxCapabilities
capabilities = record {
  runtime = docker;
  version = "27";
  isolation = container;
  network_modes = network restricted ∷ [];
  max_memory_bytes = some (whole 1000);
  max_cpu_millis = none;
}

abbrev providers : List SandboxProviderVerifier
providers =
    record {
      runtime = docker;
      verify = status (record { healthy = true; capabilities = some capabilities });
    }
    ∷ []

abbrev request : SandboxResolveRequest
request = record {
  task_trust = untrusted_content;
  policy = external_sandbox docker restricted none;
  explicit_danger_full_access = false;
  resources = some (record { max_memory_bytes = some 500; max_cpu_millis = none });
}

abbrev sandbox : ResolvedSandbox
sandbox = record {
  mode = external_sandbox_mode;
  network = some restricted;
  provider = some docker;
  capabilities = some capabilities;
}

resolves : resolve providers request ≡ resolved sandbox
unfolding resolve
resolves = refl

resolve-IsAdmissible_example :
    (resolve providers request ≡ resolved sandbox) ↔ IsAdmissible providers request sandbox
resolve-IsAdmissible_example = resolve-IsAdmissible providers request sandbox
