-- ===== src/Compiler/Examples.antt =====
-- A tool that reads and one that writes, and a grant for the second.
use vibe_go.Base.{
  ◌≡◌, ◌≤◌, ◌+◌, refl, true, false, none, some, [], ◌∷◌, String, if◌then◌else◌, leb, List,
}
use vibe_go.Base.Keyed.{find, put}
use vibe_go.Tools.{ToolDescriptor, read, write, read_only, workspace_write, get}
use vibe_go.Policy.{trusted_workspace, restricted}
use vibe_go.Compiler.{
  is_fingerprint, default_ruling, is_safe_id, by_grant, validate_key_input, tool_ruling, ruling,
  create_policy_approval_key, is_safe_reason, apply_client_decision, result, is_safe_revision,
  validate_input, is_grant_eligible, is_approval_key, Host, CompileInput, safe, ask, allow,
  compile_policy, key_of, issue, issued, Grant, IssueOptions,
}
use vibe_go.Compiler.Safety.{
  strictest, wish, unasked, RestsOn, compile_policy-strictest, compile_policy-allow,
}
use vibe_go.Compiler.Granting.{plain, issue-compile_policy}
use vibe_go.Compiler.Uses.{Attempt, uses_granted, issue-uses}

abbrev hex : String
hex = "0123456789abcdef0123456789abcdef0123456789abcdef0123456789abcdef"

abbrev host : Host
host = record {
  stringify = λ k. k.workspace_id;
  sha256 = λ s. hex;
  schema_state = λ d. safe;
  is_secret_value = λ s. false;
}

abbrev list_files : ToolDescriptor
list_files = record {
  id = "fs.list";
  version = "1";
  risk = read;
  summary = "Lists files.";
  supported_sandbox_modes = read_only ∷ workspace_write ∷ [];
  always_prompt = none;
}

abbrev edit_file : ToolDescriptor
edit_file = record {
  id = "fs.edit";
  version = "1";
  risk = write;
  summary = "Edits a file.";
  supported_sandbox_modes = workspace_write ∷ [];
  always_prompt = none;
}

abbrev reads : CompileInput
reads = record {
  registry = list_files ∷ edit_file ∷ [];
  workspace_id = "w";
  tool_id = "fs.list";
  tool_version = "1";
  risk = read;
  task_trust = trusted_workspace;
  sandbox_mode = workspace_write;
  sandbox_provider = none;
  network_access = restricted;
  network_approval = none;
  approval_policy = none;
  policy_revision = "r1";
  current_policy_revision = "r1";
  session_id = "s";
  arguments_fingerprint = hex;
  write_scope = none;
  privilege_requested = false;
  danger_full_access_confirmed = false;
  client_requested_decision = none;
  now = none;
  grant = none;
}

abbrev writes : CompileInput
writes = record reads { tool_id = "fs.edit"; risk = write }

abbrev options : IssueOptions
options = record { ttl_ms = 1000; max_uses = 2; reason = "Edits are fine."; now = none }

abbrev the_grant : Grant
the_grant = record {
  approval_key = key_of host writes;
  policy_revision = "r1";
  issued_at = 10;
  expires_at = 1010;
  remaining_uses = 2;
  reason = "Edits are fine.";
}

compile_policy-strictest_example :
    (compile_policy host (record writes { client_requested_decision = some ask }) 50).decision
    ≡ strictest
        (compile_policy host
          (unasked (record writes { client_requested_decision = some ask }))
          50).decision
        (wish (some ask))
compile_policy-strictest_example =
    compile_policy-strictest host (record writes { client_requested_decision = some ask }) 50

reads_allowed : (compile_policy host reads 50).decision ≡ allow
unfolding compile_policy validate_input result apply_client_decision ruling tool_ruling by_grant
    default_ruling get find is_safe_revision
reads_allowed = refl

compile_policy-allow_example : RestsOn host reads 50
compile_policy-allow_example = compile_policy-allow host reads 50 reads_allowed

writes_asked : (compile_policy host (plain writes none) 50).decision ≡ ask
unfolding compile_policy validate_input result apply_client_decision ruling tool_ruling by_grant
    default_ruling get find is_safe_revision
writes_asked = refl

writes_covered : is_grant_eligible writes ≡ true
unfolding is_grant_eligible
writes_covered = refl

grant_issued :
    issue host (key_of host writes) "r1" options 10 [] ≡ issued (the_grant ∷ []) the_grant
unfolding issue is_approval_key is_safe_revision is_safe_reason create_policy_approval_key
    validate_key_input is_safe_id is_fingerprint put
grant_issued = refl

issue-compile_policy_example :
    (compile_policy host (plain writes (some the_grant)) 50).decision
    ≡ (if leb 1010 50 then ask else allow)
issue-compile_policy_example =
    issue-compile_policy host writes 50 options 10 [] (the_grant ∷ []) the_grant writes_covered
      writes_asked grant_issued

abbrev attempts : List Attempt
attempts =
    record { key = key_of host writes; revision = "r1"; now = 20 }
    ∷ record { key = "other"; revision = "r1"; now = 20 }
    ∷ record { key = key_of host writes; revision = "r1"; now = 30 }
    ∷ record { key = key_of host writes; revision = "r1"; now = 40 }
    ∷ []

issue-uses_example :
    (uses_granted (key_of host writes) attempts (the_grant ∷ []) ≤ 2)
    × (2 ≤ 16)
    × (1010 ≤ 10 + 300000)
issue-uses_example =
    issue-uses host (key_of host writes) "r1" options 10 [] (the_grant ∷ []) the_grant attempts
      grant_issued
