-- ===== src/Compiler/Uses.antt =====
-- The bound on the uses of a grant, `BoundedApprovalGrantStore` of packages/policy/src/compiler.ts.
use vibe_go.Base.{
  ◌⊎◌, sym, ◌≡◌, ◌≤◌, ◌<◌, ◌+◌, refl, true, false, ◌&&◌, Option, none, some, List, [], ◌∷◌, arith,
  inl, inr, Option-cases, ℕ, suc, String, ◌=s◌, if◌then◌else◌, ap, eq_iff, ◌∙◌,
}
use vibe_go.Base.Keyed.{find, put, find-put, find-put_self, key-find}
use vibe_go.Compiler.{
  exhausted, expired, stale, missing, use_up, state_of, active, InspectionState, max_grant_ttl_ms,
  max_grant_uses, time_or, used_once, new_grant, issued, inspect, grant_key, issue, consume,
  IssueOptions, Grants, Host, Grant,
}

-- A call of `consume`.
pub record Attempt : Type 0 where
  pub key : String
  pub revision : String
  pub now : ℕ

-- How many of the attempts succeed with the grant of a key.
abbrev pub uses_granted : String → List Attempt → Grants → ℕ
uses_granted key [] gs = 0
uses_granted key (a ∷ later) gs =
    let rest = uses_granted key later (consume a.key a.revision a.now gs).0 in
    if (a.key =s key) && (consume a.key a.revision a.now gs).1 then suc rest else rest

abbrev pub uses_left : Option Grant → ℕ
uses_left none = 0
uses_left (some g) = g.remaining_uses

pub issue-issued :
    (h : Host) (key revision : String) (o : IssueOptions) (clock : ℕ) (gs gs' : Grants) (g : Grant)
    → issue h key revision o clock gs ≡ issued gs' g
    → (g ≡ new_grant key revision o (time_or clock o.now))
      × (gs' ≡ put grant_key (new_grant key revision o (time_or clock o.now)) gs)
      × (0 < o.max_uses)
      × (o.max_uses ≤ max_grant_uses)
      × (o.ttl_ms ≤ max_grant_ttl_ms)
unfolding issue
issue-issued h key revision o clock gs gs' g e =
    (ground (arith, e), ground (arith, e), ground (arith, e), ground (arith, e), ground (arith, e))

use_up-cases :
    (gs : Grants) (st : InspectionState)
    → (use_up gs st ≡ (gs, false))
      ⊎ ((g : Grant) × ((st ≡ active g) × (use_up gs st ≡ (put grant_key (used_once g) gs, true))))
use_up-cases gs missing = inl refl
use_up-cases gs (stale g) = inl refl
use_up-cases gs (expired g) = inl refl
use_up-cases gs (exhausted g) = inl refl
use_up-cases gs (active g) = inr (g, (refl, refl))

state_of-active :
    (revision : String) (now : ℕ) (x g : Grant)
    → state_of revision now x ≡ active g
    → (x ≡ g) × (0 < g.remaining_uses)
state_of-active revision now x g e = ground (arith, e)

inspect-active :
    (key revision : String) (now : ℕ) (gs : Grants) (g : Grant)
    → inspect key revision now gs ≡ active g
    → (find grant_key key gs ≡ some g) × (0 < g.remaining_uses)
unfolding inspect
inspect-active key revision now gs g e = elim (Option-cases (find grant_key key gs)) [
  | inl no_grant ↦ absurd (ground (arith, e, no_grant))
  | inr (x, there) ↦
      let (same, left) = state_of-active revision now x g (
        sym (
          ap
            (λ o. elim o as (λ _. InspectionState) [
              | none ↦ missing
              | some y ↦ state_of revision now y
            ])
            there)
        ∙ e) in
      (there ∙ ap some same, left)
]

-- A success takes one use from the grant of its key, and nothing adds any.
consume-uses_left :
    (a : Attempt) (key : String) (gs : Grants)
    → (if (a.key =s key) && (consume a.key a.revision a.now gs).1 then 1 else 0)
        + uses_left (find grant_key key (consume a.key a.revision a.now gs).0)
      ≤ uses_left (find grant_key key gs)
unfolding consume
consume-uses_left a key gs = elim (use_up-cases gs (inspect a.key a.revision a.now gs)) [
  | inl unused ↦ rw unused (ground arith)
  | inr (g, (able, used)) ↦
      let (there, left) = inspect-active a.key a.revision a.now gs g able in
      rw used (
        ground (
          arith,
          there,
          left,
          find-put grant_key key (used_once g) gs,
          key-find grant_key a.key gs g there,
          eq_iff a.key key,
        ))
]

uses_granted-bound :
    (key : String) (later : List Attempt) (gs : Grants)
    → uses_granted key later gs ≤ uses_left (find grant_key key gs)
uses_granted-bound key [] gs = omega arith
uses_granted-bound key (a ∷ later) gs = ground (
  arith,
  consume-uses_left a key gs,
  uses_granted-bound key later (consume a.key a.revision a.now gs).0,
)

-- Once a grant is issued, of the attempts to consume that follow, however many, at most as many succeed under its
-- key as the uses it was issued for, which are at most sixteen; and it expires within five minutes of its issue.
pub issue-uses :
    (h : Host) (key revision : String) (o : IssueOptions) (clock : ℕ) (gs gs' : Grants) (g : Grant)
    (later : List Attempt)
    → issue h key revision o clock gs ≡ issued gs' g
    → (uses_granted key later gs' ≤ o.max_uses)
      × (o.max_uses ≤ 16)
      × (g.expires_at ≤ g.issued_at + 300000)
issue-uses h key revision o clock gs gs' g later e =
    let (same, stored, _, few, soon) = issue-issued h key revision o clock gs gs' g e in
    (
      omega (
        arith,
        uses_granted-bound key later gs',
        ap (λ x. uses_left (find grant_key key x)) stored,
        ap uses_left (find-put_self grant_key (new_grant key revision o (time_or clock o.now)) gs),
      ),
      few,
      omega (arith, soon, ap (λ x. x.expires_at) same, ap (λ x. x.issued_at) same),
    )
