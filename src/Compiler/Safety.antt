-- ===== src/Compiler/Safety.antt =====
-- What an `allow` of packages/policy/src/compiler.ts rests on, and what the client can do.
use vibe_go.Base.{
  if◌then◌else◌, ◌&&◌, ◌∙◌, sym, ap, subst, eq_iff, ◌≡◌, ◌<◌, ◌⊎◌, refl, true, false, not, Option,
  none, some, arith, inl, inr, Option-cases, Bool-cases, ℕ, any,
}
use vibe_go.Compiler.Types.{ask, deny}
use vibe_go.Tools.{ToolDescriptor, get, read, danger_full_access, external_sandbox}
use vibe_go.Policy.{same_mode, same_risk, is_untrusted}
use vibe_go.Compiler.{
  approval_denial, or_deny, network_approval_required, rule, is_explicit, schema_denial, network,
  tool_ruling, after_denials, SchemaState, Ruling, ruling, is_grant_eligible, time_of, subject_of,
  is_outside, validate_input, key_of, given, default_ruling, CompiledPolicy, safe, result,
  invalid_result, evaluate_grant, allow, Grant, compile_policy, by_grant, apply_client_decision,
  Decision, CompileInput, Host,
}
use vibe_go.Compiler.Denials.{or_deny-open, server, heard, rejected, not_deny, ruling-IsOpen}

abbrev pub strictest : Decision → Decision → Decision
strictest deny d = deny
strictest ask deny = deny
strictest ask d = ask
strictest allow d = d

abbrev pub wish : Option Decision → Decision
wish none = allow
wish (some d) = d

abbrev pub unasked : CompileInput → CompileInput
unasked i = record i { client_requested_decision = none }

apply-strictest :
    (i : CompileInput) (p : CompiledPolicy)
    → (apply_client_decision i p).decision ≡ strictest p.decision (wish i.client_requested_decision)
unfolding apply_client_decision result
apply-strictest i p = ground arith

-- The decision is the stricter one of what the server decides on its own and what the client asks for:
-- the client can tighten a decision, and never loosen it.
pub compile_policy-strictest :
    (h : Host) (i : CompileInput) (clock : ℕ)
    → (compile_policy h i clock).decision
      ≡ strictest (compile_policy h (unasked i) clock).decision (wish i.client_requested_decision)
unfolding compile_policy invalid_result apply_client_decision result validate_input ruling
    tool_ruling by_grant default_ruling evaluate_grant
compile_policy-strictest h i clock = elim (Option-cases (validate_input i)) [
  | inr (code, bad) ↦ rw (bad, compile_policy) refl
  | inl valid ↦
      rw (valid, compile_policy)
        (apply-strictest i (
          result (subject_of i) (key_of h i) (ruling h i clock).decision (ruling h i clock).code
            (ruling h i clock).grant))
]

allow_ask : allow ≡ ask → ⊥
allow_ask e = ground (arith, e)

safe_state : (h : Host) (x : SchemaState) → schema_denial h x ≡ none → x ≡ safe
safe_state h x e = ground (arith, e)

-- Why the server lets a request through without a question: it reads, or an exact grant that is not
-- stale, expired or used up covers a write in a trusted workspace.
abbrev pub IsCovered : Host → CompileInput → ℕ → Type 0
IsCovered h i clock =
    ((same_risk i.risk read ≡ true) × (i.grant ≡ none))
    ⊎ ((g : Grant) × ((i.grant ≡ some g)
          × ((g.approval_key ≡ key_of h i)
              × ((g.policy_revision ≡ i.current_policy_revision)
                  × ((time_of clock i.now < g.expires_at)
                      × ((0 < g.remaining_uses) × (is_grant_eligible i ≡ true)))))))

abbrev Covers : Host → CompileInput → ℕ → Grant → Type 0
Covers h i clock g =
    (g.approval_key ≡ key_of h i)
    × ((g.policy_revision ≡ i.current_policy_revision)
        × ((time_of clock i.now < g.expires_at)
            × ((0 < g.remaining_uses) × (is_grant_eligible i ≡ true))))

covered :
    (h : Host) (i : CompileInput) (clock : ℕ) (g : Grant)
    → (evaluate_grant i (key_of h i) clock g).decision ≡ allow
    → Covers h i clock g
unfolding evaluate_grant
covered h i clock g e =
    let same = eq_iff g.approval_key (key_of h i) in
    let current = eq_iff g.policy_revision i.current_policy_revision in
    (
      ground (arith, e, same),
      (ground (arith, e, current), (ground (arith, e), (ground (arith, e), ground (arith, e)))),
    )

by_grant-allow :
    (h : Host) (i : CompileInput) (clock : ℕ)
    → (by_grant h i clock).decision ≡ allow
    → IsCovered h i clock
unfolding by_grant default_ruling
by_grant-allow h i clock e = elim (Option-cases i.grant) [
  | inl no_grant ↦ inl (ground (arith, e, no_grant), no_grant)
  | inr (g, there) ↦ inr (
    g,
    (
      there,
      (covered h i clock g (
          subst
            (λ o.
              (elim o as (λ _. Ruling) [
                | none ↦ default_ruling i
                | some x ↦ evaluate_grant i (key_of h i) clock x
              ]).decision
              ≡ allow)
            there e)),
    ),
  )
]

abbrev pub RestsOn : Host → CompileInput → ℕ → Type 0
RestsOn h i clock =
    (d : ToolDescriptor) × ((get i.tool_id i.tool_version i.registry ≡ some d)
      × ((h.schema_state d ≡ safe)
          × ((same_risk d.risk i.risk ≡ true)
              × ((any (λ m. same_mode m i.sandbox_mode) d.supported_sandbox_modes ≡ true)
                  × ((given i.sandbox_provider ≡ same_mode i.sandbox_mode external_sandbox)
                      × ((is_untrusted i.task_trust ≡ true
                            → same_mode i.sandbox_mode external_sandbox ≡ true)
                          × ((same_mode i.sandbox_mode danger_full_access ≡ true
                                → i.danger_full_access_confirmed ≡ true)
                              × ((i.privilege_requested ≡ false)
                                  × ((is_outside i.write_scope ≡ false)
                                      × ((i.policy_revision ≡ i.current_policy_revision)
                                          × ((wish i.client_requested_decision ≡ allow)
                                              × IsCovered h i clock)))))))))))

strictest_allow : (d d' : Decision) → strictest d d' ≡ allow → (d ≡ allow) × (d' ≡ allow)
strictest_allow d d' e = ground (arith, e)

-- Neither the server nor the client objects.
compile_policy-parts :
    (h : Host) (i : CompileInput) (clock : ℕ)
    → (compile_policy h i clock).decision ≡ allow
    → ((ruling h i clock).decision ≡ allow) × (wish i.client_requested_decision ≡ allow)
unfolding compile_policy invalid_result result
compile_policy-parts h i clock e = elim (Option-cases (validate_input i)) [
  | inr (code, bad) ↦
      absurd (not_deny (rw⁻¹ (ap (λ p. p.decision) (rejected h i clock code bad)) e))
  | inl valid ↦ strictest_allow (ruling h i clock).decision (wish i.client_requested_decision) (
      sym (apply-strictest i (server h i clock))
      ∙ sym (ap (λ p. p.decision) (heard h i clock valid))
      ∙ e)
]

after_denials-allow :
    (h : Host) (i : CompileInput) (clock : ℕ)
    → (after_denials h i clock).decision ≡ allow
    → IsCovered h i clock
after_denials-allow h i clock e =
    elim (Bool-cases (same_risk i.risk network && not (is_explicit i.network_approval))) [
      | inl unexplained ↦ absurd (
          allow_ask (
            sym e
            ∙ ap
                (λ b.
                  (if b
                    then rule ask network_approval_required
                    else or_deny (approval_denial i) (by_grant h i clock)).decision)
                unexplained))
      | inr explained ↦
          let at : (or_deny (approval_denial i) (by_grant h i clock)).decision ≡ allow =
            sym (
              ap
                (λ b.
                  (if b
                    then rule ask network_approval_required
                    else or_deny (approval_denial i) (by_grant h i clock)).decision)
                explained)
            ∙ e in
          let (none_there, same) =
            or_deny-open (approval_denial i) (by_grant h i clock) (λ k. not_deny (sym k ∙ at)) in
          by_grant-allow h i clock (sym (ap (λ r. r.decision) same) ∙ at)
    ]

-- A request is allowed only if its tool is registered with the same risk, a safe schema and support for
-- the sandbox mode, an external sandbox is used just when a provider is named and always for untrusted
-- content, full access is confirmed, no privilege and no write outside the workspace is requested, the
-- revision is current, the client does not object, and either it reads and carries no grant, or an
-- exact, current grant with a use left covers it.
pub compile_policy-allow :
    (h : Host) (i : CompileInput) (clock : ℕ)
    → (compile_policy h i clock).decision ≡ allow
    → RestsOn h i clock
compile_policy-allow h i clock e =
    let (server_allows, client_allows) = compile_policy-parts h i clock e in
    let o = ruling-IsOpen h i clock (λ k. not_deny (sym k ∙ server_allows)) in
    let d = o.descriptor in
    let provider = o.sandbox in
    (
      d,
      (
        o.registered,
        (
          safe_state h (h.schema_state d) o.schema,
          (
            ground (arith, provider),
            (
              ground (arith, provider),
              (
                ground (arith, provider),
                (
                  ground (arith, provider),
                  (
                    ground (arith, o.scope),
                    (
                      ground (arith, o.scope),
                      (
                        ground (arith, o.scope),
                        (
                          ground
                              (arith, o.scope, eq_iff i.policy_revision i.current_policy_revision),
                          (
                            client_allows,
                            after_denials-allow h i clock
                                (sym (ap (λ r. r.decision) o.same) ∙ server_allows),
                          ),
                        ),
                      ),
                    ),
                  ),
                ),
              ),
            ),
          ),
        ),
      ),
    )
