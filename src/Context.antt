-- ===== src/Context.antt =====
-- packages/context/src/index.ts: the messages that fit a model's context.
-- An error that is thrown is a value of `Error`; `budget` is the `ContextBudgetError` with the bytes
-- and tokens that the protected items need. `len` is `Buffer.byteLength`, the bytes in UTF-8.
mod Types
pub mod Compaction
pub mod Packing
pub mod Budget
mod Examples
pub use Types.*
use Prim.Native.String.{len, ◌++◌ as ◌+s◌}
use vibe_go.Base.{
  ℕ, ◌+◌, ◌-◌, ◌/◌, String, Bool, true, false, not, ◌&&◌, ◌||◌, Option, none, some, List, [], ◌∷◌,
  ◌++◌, ◌==◌, ◌=s◌, ltb, leb, if◌then◌else◌, length, filter_by, map, max_safe_integer, find_index,
  remove_at, any,
}
use vibe_go.Base.Keyed.{has}

infixl 5 ◌>>=◌
abbrev pub ◌>>=◌ {ℓ κ} :
    {First : Type ℓ} {Last : Type κ} → Result First → (First → Result Last) → Result Last
err why >>= rest = err why
ok x >>= rest = rest x

abbrev pub or_else : Option ℕ → ℕ → ℕ
or_else none d = d
or_else (some n) d = n

-- `Number.isSafeInteger(n) && n > 0`
abbrev pub positive : ℕ → Bool
positive n = ltb 0 n && leb n max_safe_integer

abbrev pub item_key : ContextItem → String
item_key i = i.id

abbrev bad_item_sequence : Option ℕ → Bool
bad_item_sequence none = false
bad_item_sequence (some n) = not (positive n)

pub add : ContextItem → Manager → Result Manager
add i m =
    if (i.id =s "") || (i.content =s "")
    then err missing_text
    else if has item_key i.id m.items
    then err duplicate_item
    else if leb m.options.max_items (length m.items)
    then err too_many_items
    else if bad_item_sequence i.sequence
    then err bad_sequence
    else ok (record m { items = m.items ++ i ∷ [] })

add_all : List ContextItem → Manager → Result Manager
add_all [] m = ok m
add_all (i ∷ is) m = add i m >>= add_all is

-- The constructor.
pub new :
    ℕ → Option ℕ → Option ℕ → Option (ContextMessage → Estimate) → List ContextItem → Result Manager
unfolding add_all
new max_bytes max_tokens max_items estimator initial =
    if not (positive max_bytes)
    then err invalid_limit
    else if not (positive (or_else max_tokens max_safe_integer))
    then err invalid_limit
    else if not (positive (or_else max_items 256) && leb (or_else max_items 256) 4096)
    then err invalid_limit
    else add_all initial (record {
      options = record {
        max_bytes = max_bytes;
        max_tokens = or_else max_tokens max_safe_integer;
        max_items = or_else max_items 256;
        token_estimator = estimator;
      };
      items = [];
    })

pub remove : String → Manager → Manager × Bool
remove id m = elim (find_index (λ i. item_key i =s id) m.items) [
  | none ↦ (m, false)
  | some i ↦ (record m { items = remove_at i m.items }, true)
]

pub clear : Manager → Manager
clear m = record m { items = [] }

pub size : Manager → ℕ
size m = length m.items

source_name : ContextSource → String
source_name system_source = "system"
source_name developer_source = "developer"
source_name user_source = "user"
source_name model_source = "model"
source_name tool_source = "tool"
source_name workspace_source = "workspace"
source_name retrieval_source = "retrieval"

-- The text of an untrusted item is fenced.
wrap : ContextTrust → ContextItem → String
unfolding source_name
wrap trusted i = i.content
wrap untrusted i =
    "[BEGIN_UNTRUSTED_CONTENT source="
    +s source_name i.source
    +s "]\n"
    +s i.content
    +s "\n[END_UNTRUSTED_CONTENT]"

pub to_message : ContextItem → ContextMessage
unfolding wrap
to_message i = record { role = i.role; content = wrap i.trust i }

pub message_bytes : ContextMessage → ℕ
message_bytes m = len m.content

-- `Math.max(1, Math.ceil(bytes / 4))`
default_tokens : ContextMessage → ℕ
unfolding message_bytes
default_tokens m = if leb (message_bytes m) 4 then 1 else (message_bytes m + 3) / 4

checked : Estimate → Result ℕ
checked (whole n) = if leb n max_safe_integer then ok n else err bad_estimate
checked other = err bad_estimate

pub message_tokens : Options → ContextMessage → Result ℕ
unfolding default_tokens checked
message_tokens o m = elim o.token_estimator [
  | none ↦ checked (whole (default_tokens m))
  | some f ↦ checked (f m)
]

abbrev pub preserves : Option ContextPreservation → Bool
preserves none = false
preserves (some nothing) = false
preserves (some p) = true

abbrev pub is_instruction : ContextRole → Bool
is_instruction system = true
is_instruction developer = true
is_instruction _ = false

abbrev pub is_user : ContextRole → Bool
is_user user = true
is_user _ = false

pub holds_user : List ContextItem → Bool
holds_user is = any (λ i. is_user i.role) is

-- An item is protected by its role or mark, or as the last message of the user: one with no message
-- of the user behind it.
pub is_protected : ContextItem → List ContextItem → Bool
unfolding holds_user
is_protected i later =
    is_instruction i.role || preserves i.preserve || (is_user i.role && not (holds_user later))

pub record Totals : Type 0 where
  pub bytes : ℕ
  pub tokens : ℕ

-- The two sums over the protected items.
pub protected_totals : Options → List ContextItem → Result Totals
unfolding is_protected message_tokens to_message message_bytes
protected_totals o [] = ok (record { bytes = 0; tokens = 0 })
protected_totals o (i ∷ is) = protected_totals o is >>= λ rest.
    if is_protected i is
    then message_tokens o (to_message i) >>= (λ tokens.
      ok (record {
        bytes = message_bytes (to_message i) + rest.bytes;
        tokens = tokens + rest.tokens;
      }))
    else ok rest

-- What the loop over the unprotected items has decided: an item is selected or dropped.
pub record Selection : Type 0 where
  pub selected : List ContextItem
  pub dropped : List ContextItem
  pub totals : Totals

abbrev pub fits : Options → Totals → ℕ → ℕ → Bool
fits o t bytes tokens = leb (t.bytes + bytes) o.max_bytes && leb (t.tokens + tokens) o.max_tokens

-- The turn of one unprotected item.
pub consider : Options → ContextItem → ℕ → Selection → Selection
consider o i tokens s =
    if fits o s.totals (message_bytes (to_message i)) tokens
    then record s {
      selected = i ∷ s.selected;
      totals = record {
        bytes = s.totals.bytes + message_bytes (to_message i);
        tokens = s.totals.tokens + tokens;
      };
    }
    else record s { dropped = i ∷ s.dropped }

-- The loop runs from the last item to the first, so the later items are decided first. The sorted
-- indices are the items in their own order.
pub select : Options → Totals → List ContextItem → Result Selection
unfolding is_protected message_tokens to_message message_bytes consider
select o t [] = ok (record { selected = []; dropped = []; totals = t })
select o t (i ∷ is) = select o t is >>= λ s.
    if is_protected i is
    then ok (record s { selected = i ∷ s.selected })
    else message_tokens o (to_message i) >>= λ tokens. ok (consider o i tokens s)

pub over_budget : Options → Totals → Bool
over_budget o t = ltb o.max_bytes t.bytes || ltb o.max_tokens t.tokens

abbrev pub ids : List ContextItem → List String
ids is = map item_key is

pub built : Selection → ContextBuildResult
built s = record {
  messages = map to_message s.selected;
  dropped_item_ids = ids s.dropped;
  dropped_count = length (ids s.dropped);
  bytes = s.totals.bytes;
  tokens = s.totals.tokens;
  compacted = ltb 0 (length (ids s.dropped));
}

pub build_selection : Manager → Result Selection
unfolding protected_totals select over_budget
build_selection m = protected_totals m.options m.items >>= λ t.
    if over_budget m.options t then err (budget t.bytes t.tokens) else select m.options t m.items

pub build : Manager → Result ContextBuildResult
unfolding build_selection built
build m = build_selection m >>= λ s. ok (built s)
