-- ===== src/Compiler/Store.antt =====
-- `BoundedApprovalGrantStore` of packages/policy/src/compiler.ts.
use vibe_go.Base.{
  ℕ, ◌+◌, ◌-◌, String, Bool, true, false, not, ◌&&◌, ◌||◌, Option, none, some, List, [], ◌∷◌, ◌==◌,
  ◌=s◌, leb, ltb, if◌then◌else◌, length, max_safe_integer,
}
use vibe_go.Base.Keyed.{find, put, delete}
use vibe_go.Base.Text.{codes, all_in, has_shape, is_letter, is_digit, is_hex, units, is_line_end}
use vibe_go.Compiler.Types.{Grant, Host}

-- `CONTROL_TEXT`
abbrev pub is_plain : List ℕ → Bool
is_plain cs = all_in (λ c. not (leb c 31 || (c == 127) || is_line_end c)) cs

abbrev pub is_revision_start : ℕ → Bool
is_revision_start c = is_letter c || is_digit c

abbrev pub is_revision_char : ℕ → Bool
is_revision_char c = is_revision_start c || (c == b'.') || (c == b'_') || (c == b'-')

-- `SAFE_REVISION`
unfoldable pub is_safe_revision : String → Bool
is_safe_revision s = has_shape is_revision_start is_revision_char 127 (codes s)

abbrev pub behind : List ℕ → List ℕ → Option (List ℕ)
behind [] cs = some cs
behind (p ∷ ps) [] = none
behind (p ∷ ps) (c ∷ cs) = if p == c then behind ps cs else none

-- `APPROVAL_KEY`
unfoldable pub is_approval_key : String → Bool
is_approval_key s = elim (behind (codes "approval.v1.") (codes s)) [
  | none ↦ false
  | some cs ↦ all_in is_hex cs && (length cs == 64)
]

-- `WINDOWS_ABSOLUTE`, `UNC_ABSOLUTE` and `POSIX_ABSOLUTE`
abbrev pub is_absolute : List ℕ → Bool
is_absolute (c ∷ d ∷ e ∷ cs) =
    (is_letter c && (d == b':') && ((e == b'\\') || (e == b'/')))
    || ((c == b'\\') && (d == b'\\'))
    || ((c == b'/') && not (d == b'/'))
is_absolute (c ∷ d ∷ []) = ((c == b'\\') && (d == b'\\')) || ((c == b'/') && not (d == b'/'))
is_absolute (c ∷ []) = c == b'/'
is_absolute [] = false

unfoldable pub is_safe_reason : Host → String → Bool
is_safe_reason h s =
    ltb 0 (units (codes s))
    && leb (units (codes s)) 256
    && is_plain (codes s)
    && not (h.is_secret_value s)
    && not (is_absolute (codes s))

-- `MAX_GRANT_TTL_MS` and `MAX_GRANT_USES`
abbrev pub max_grant_ttl_ms : ℕ
max_grant_ttl_ms = 300000

abbrev pub max_grant_uses : ℕ
max_grant_uses = 16

pub record IssueOptions : Type 0 where
  pub ttl_ms : ℕ
  pub max_uses : ℕ
  pub reason : String
  pub now : Option ℕ

-- The map `grants`.
abbrev pub Grants : Type 0
Grants = List Grant

abbrev pub grant_key : Grant → String
grant_key g = g.approval_key

pub data IssueError : Type 0 where
  invalid_key invalid_revision invalid_timestamp ttl_out_of_bound uses_out_of_bound : IssueError
  invalid_reason : IssueError

pub data Issued : Type 0 where
  issued : Grants → Grant → Issued
  not_issued : IssueError → Issued

pub data InspectionState : Type 0 where
  missing : InspectionState
  stale expired exhausted active : Grant → InspectionState

abbrev pub time_or : ℕ → Option ℕ → ℕ
time_or clock none = clock
time_or clock (some n) = n

abbrev pub new_grant : String → String → IssueOptions → ℕ → Grant
new_grant key revision o at = record {
  approval_key = key;
  policy_revision = revision;
  issued_at = at;
  expires_at = at + o.ttl_ms;
  remaining_uses = o.max_uses;
  reason = o.reason;
}

unfoldable pub issue : Host → String → String → IssueOptions → ℕ → Grants → Issued
issue h key revision o clock gs =
    if not (is_approval_key key)
    then not_issued invalid_key
    else if not (is_safe_revision revision)
    then not_issued invalid_revision
    else if not (leb (time_or clock o.now) max_safe_integer)
    then not_issued invalid_timestamp
    else if (o.ttl_ms == 0) || ltb max_grant_ttl_ms o.ttl_ms
    then not_issued ttl_out_of_bound
    else if (o.max_uses == 0) || ltb max_grant_uses o.max_uses
    then not_issued uses_out_of_bound
    else if not (is_safe_reason h o.reason)
    then not_issued invalid_reason
    else issued (put grant_key (new_grant key revision o (time_or clock o.now)) gs)
        (new_grant key revision o (time_or clock o.now))

-- The tests on a grant that is found.
abbrev pub state_of : String → ℕ → Grant → InspectionState
state_of revision now g =
    if not (g.policy_revision =s revision)
    then stale g
    else if leb g.expires_at now
    then expired g
    else if leb g.remaining_uses 0
    then exhausted g
    else active g

unfoldable pub inspect : String → String → ℕ → Grants → InspectionState
inspect key revision now gs = elim (find grant_key key gs) [
  | none ↦ missing
  | some g ↦ state_of revision now g
]

abbrev pub used_once : Grant → Grant
used_once g = record g { remaining_uses = g.remaining_uses - 1 }

abbrev pub use_up : Grants → InspectionState → Grants × Bool
use_up gs (active g) = (put grant_key (used_once g) gs, true)
use_up gs _ = (gs, false)

unfoldable pub consume : String → String → ℕ → Grants → Grants × Bool
consume key revision now gs = use_up gs (inspect key revision now gs)

unfoldable pub revoke : String → Grants → Grants
revoke key gs = delete grant_key key gs

unfoldable pub clear : Grants → Grants
clear gs = []
