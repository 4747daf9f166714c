-- ===== src/Compiler/Denials.antt =====
-- The chain of denials in `compilePolicy` of packages/policy/src/compiler.ts.
use vibe_go.Base.{◌∙◌, ap, ◌≡◌, ◌≢◌, refl, Option, none, some, arith, inl, inr, Option-cases, ℕ}
use vibe_go.Tools.{ToolDescriptor, get}
use vibe_go.Compiler.{
  key_of, subject_of, invalid_result, apply_client_decision, validate_input, result, compile_policy,
  allow, CompiledPolicy, after_denials, network_denial, scope_denial, sandbox_denial, or_deny, deny,
  tool_ruling, schema_denial, Ruling, ruling, ReasonCode, CompileInput, Host,
}

pub or_deny-open :
    (c : Option ReasonCode) (next : Ruling)
    → (or_deny c next).decision ≢ deny
    → (c ≡ none) × (or_deny c next ≡ next)
or_deny-open none next h = (refl, refl)
or_deny-open (some code) next h = absurd (h refl)

-- What holds of a request that is not denied before its grant is read.
pub record IsOpen (h : Host) (i : CompileInput) (clock : ℕ) : Type 0 where
  pub descriptor : ToolDescriptor
  pub registered : get i.tool_id i.tool_version i.registry ≡ some descriptor
  pub schema : schema_denial h (h.schema_state descriptor) ≡ none
  pub sandbox : sandbox_denial i descriptor ≡ none
  pub scope : scope_denial i ≡ none
  pub network : network_denial i ≡ none
  pub same : ruling h i clock ≡ after_denials h i clock

pub ruling-IsOpen :
    (h : Host) (i : CompileInput) (clock : ℕ)
    → (ruling h i clock).decision ≢ deny
    → IsOpen h i clock
unfolding ruling tool_ruling
ruling-IsOpen h i clock fine = elim (Option-cases (get i.tool_id i.tool_version i.registry)) [
  | inl missing ↦ absurd (fine (rw (missing, ruling) refl))
  | inr (d, found) ↦
      let there : (tool_ruling h i clock d).decision ≢ deny = λ e. fine (rw (found, ruling) e) in
      let (a, s) = or_deny-open (schema_denial h (h.schema_state d)) _ there in
      let (b, t) = or_deny-open (sandbox_denial i d) _ (λ e. there (ap (λ r. r.decision) s ∙ e)) in
      let (c, u) =
        or_deny-open (scope_denial i) _ (λ e. there (ap (λ r. r.decision) (s ∙ t) ∙ e)) in
      let (n, v) =
        or_deny-open (network_denial i) _ (λ e. there (ap (λ r. r.decision) (s ∙ t ∙ u) ∙ e)) in
      record {
        descriptor = d;
        registered = found;
        schema = a;
        sandbox = b;
        scope = c;
        network = n;
        same = rw (found, ruling) (s ∙ t ∙ u ∙ v);
      }
]

-- The denials do not depend on the grant or on the client.
pub IsOpen-ruling :
    (h : Host) (i : CompileInput) (clock : ℕ) (d : ToolDescriptor)
    → get i.tool_id i.tool_version i.registry ≡ some d
    → schema_denial h (h.schema_state d) ≡ none
    → sandbox_denial i d ≡ none
    → scope_denial i ≡ none
    → network_denial i ≡ none
    → ruling h i clock ≡ after_denials h i clock
unfolding ruling tool_ruling
IsOpen-ruling h i clock d found a b c n = rw (found, a, b, c, n, ruling) refl

-- What the server decides on its own, of a valid input.
abbrev pub server : Host → CompileInput → ℕ → CompiledPolicy
server h i clock =
    result (subject_of i) (key_of h i) (ruling h i clock).decision (ruling h i clock).code
      (ruling h i clock).grant

pub heard :
    (h : Host) (i : CompileInput) (clock : ℕ)
    → validate_input i ≡ none
    → compile_policy h i clock ≡ apply_client_decision i (server h i clock)
unfolding compile_policy
heard h i clock valid = rw (valid, compile_policy) refl

pub rejected :
    (h : Host) (i : CompileInput) (clock : ℕ) (code : ReasonCode)
    → validate_input i ≡ some code
    → compile_policy h i clock ≡ invalid_result code
unfolding compile_policy
rejected h i clock code bad = rw (bad, compile_policy) refl

pub not_deny : deny ≡ allow → ⊥
not_deny e = ground (arith, e)
