-- ===== src/Compiler/Granting.antt =====
-- What a grant of the bounded store lets through, packages/policy/src/compiler.ts.
use vibe_go.Base.{
  subst, ◌≡◌, ◌<◌, refl, true, false, Option, none, some, arith, inl, inr, Option-cases, ℕ, String,
  ap, sym, ◌∙◌, eq_iff, if◌then◌else◌, leb,
}
use vibe_go.Tools.{network}
use vibe_go.Policy.{same_risk}
use vibe_go.Compiler.{
  scope_denial, or_deny, by_grant, approval_denial, after_denials, ruling, issued, key_of, issue,
  allow, time_of, result, compile_policy, Grants, invalid_result, ask, IssueOptions, Grant,
  validate_input, is_grant_eligible, evaluate_grant, deny, apply_client_decision, CompileInput,
  Host,
}
use vibe_go.Compiler.Denials.{ruling-IsOpen, IsOpen-ruling, or_deny-open, server, heard, rejected}
use vibe_go.Compiler.Uses.{issue-issued}

-- The same request with another grant, and with no wish of the client.
abbrev pub plain : CompileInput → Option Grant → CompileInput
plain i g = record i { client_requested_decision = none; grant = g }

ask_deny : deny ≡ ask → ⊥
ask_deny e = ground (arith, e)

heard_plain :
    (h : Host) (i : CompileInput) (clock : ℕ) (g : Option Grant)
    → validate_input i ≡ none
    → compile_policy h (plain i g) clock ≡ server h (plain i g) clock
unfolding apply_client_decision validate_input
heard_plain h i clock g valid = heard h (plain i g) clock valid

is_valid :
    (h : Host) (i : CompileInput) (clock : ℕ)
    → (compile_policy h (plain i none) clock).decision ≡ ask
    → validate_input i ≡ none
unfolding validate_input invalid_result result
is_valid h i clock e = elim (Option-cases (validate_input i)) [
  | inl valid ↦ valid
  | inr (code, bad) ↦
      absurd (ask_deny (sym (ap (λ p. p.decision) (rejected h (plain i none) clock code bad)) ∙ e))
]

eligible_write : (i : CompileInput) → is_grant_eligible i ≡ true → same_risk i.risk network ≡ false
unfolding is_grant_eligible
eligible_write i e = ground (arith, e)

fresh_grant :
    (i : CompileInput) (key : String) (clock : ℕ) (g : Grant)
    → is_grant_eligible i ≡ true
    → g.approval_key ≡ key
    → g.policy_revision ≡ i.current_policy_revision
    → 0 < g.remaining_uses
    → (evaluate_grant i key clock g).decision
      ≡ (if leb g.expires_at (time_of clock i.now) then ask else allow)
unfolding evaluate_grant
fresh_grant i key clock g able same current left = ground (
  arith,
  able,
  left,
  (eq_iff g.approval_key key).0,
  (eq_iff g.approval_key key).1 same,
  (eq_iff g.policy_revision i.current_policy_revision).1 current,
)

current_of :
    (i : CompileInput) → scope_denial i ≡ none → i.policy_revision ≡ i.current_policy_revision
current_of i e = ground (arith, e, eq_iff i.policy_revision i.current_policy_revision)

after_denials-write :
    (h : Host) (i : CompileInput) (clock : ℕ)
    → same_risk i.risk network ≡ false
    → after_denials h i clock ≡ or_deny (approval_denial i) (by_grant h i clock)
after_denials-write h i clock e = rw e refl

by_grant-some :
    (h : Host) (i : CompileInput) (clock : ℕ) (g : Grant)
    → approval_denial i ≡ none
    → (or_deny (approval_denial (plain i (some g))) (by_grant h (plain i (some g)) clock))
      ≡ evaluate_grant (plain i (some g)) (key_of h i) clock g
unfolding by_grant
by_grant-some h i clock g e = rw e refl

-- A grant that the store issues for a request under its current revision turns the question that the
-- server would ask into an `allow` until the grant expires, and into a question again from then on, if
-- the request is one that a grant can cover.
pub issue-compile_policy :
    (h : Host) (i : CompileInput) (clock : ℕ) (o : IssueOptions) (at : ℕ) (gs gs' : Grants)
    (g : Grant)
    → is_grant_eligible i ≡ true
    → (compile_policy h (plain i none) clock).decision ≡ ask
    → issue h (key_of h i) i.policy_revision o at gs ≡ issued gs' g
    → (compile_policy h (plain i (some g)) clock).decision
      ≡ (if leb g.expires_at (time_of clock i.now) then ask else allow)
unfolding ruling result is_grant_eligible
issue-compile_policy h i clock o at gs gs' g able asks done =
    let valid = is_valid h i clock asks in
    let before = plain i none in
    let now = plain i (some g) in
    let asked : (ruling h before clock).decision ≡ ask =
      sym (ap (λ p. p.decision) (heard_plain h i clock none valid)) ∙ asks in
    let found = ruling-IsOpen h before clock (λ e. ask_deny (sym e ∙ asked)) in
    let same : ruling h now clock ≡ after_denials h now clock =
      IsOpen-ruling h now clock found.descriptor found.registered found.schema found.sandbox
        found.scope found.network in
    let write_only = eligible_write i able in
    let undenied = or_deny-open (approval_denial i) (by_grant h before clock) (λ e. ask_deny (
      sym e
      ∙ sym (ap (λ r. r.decision) (found.same ∙ after_denials-write h before clock write_only))
      ∙ asked)) in
    let (made, _, some_uses, _, _) =
      issue-issued h (key_of h i) i.policy_revision o at gs gs' g done in
    ap (λ p. p.decision) (heard_plain h i clock (some g) valid)
    ∙ ap (λ r. r.decision)
        (same ∙ after_denials-write h now clock write_only ∙ by_grant-some h i clock g undenied.0)
    ∙ fresh_grant now (key_of h i) clock g able (ap (λ x. x.approval_key) made)
        (ap (λ x. x.policy_revision) made ∙ current_of i found.scope)
        (subst (λ x. 0 < x.remaining_uses) (sym made) some_uses)
