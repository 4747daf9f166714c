-- ===== src/Context/Examples.antt =====
-- A manager with an instruction and two questions, and room for two of them.
use vibe_go.Base.{◌<◌, ◌≤◌, ◌⊎◌, ℕ, ◌≡◌, refl, String, true, false, none, some, [], ◌∷◌, map, arith}
use vibe_go.Context.{
  ContextItem, ContextRole, system, user, user_source, trusted, ContextBuildResult, Manager,
  Options, whole, ok, err, budget, build, to_message, message_bytes, message_tokens,
}
use vibe_go.Context.Packing.{sum_bytes, sum_tokens}
use vibe_go.Context.Budget.{
  protected_bytes, protected_tokens, IsBuilt, IsOk, IsTotal, build-IsBuilt, build_lossless,
  build_total,
}

abbrev item : String → ContextRole → String → ContextItem
item id role content = record {
  id = id;
  source = user_source;
  trust = trusted;
  role = role;
  content = content;
  preserve = none;
  sequence = none;
}

abbrev options : ℕ → Options
options n = record {
  max_bytes = n;
  max_tokens = 100;
  max_items = 8;
  token_estimator = some (λ m. whole 1);
}

abbrev manager : ℕ → Manager
manager n = record {
  options = options n;
  items = item "a" system "rules" ∷ item "b" user "what is it?" ∷ item "c" user "go on" ∷ [];
}

-- The older question is dropped.
abbrev short : ContextBuildResult
short = record {
  messages =
      record { role = system; content = "rules" } ∷ record { role = user; content = "go on" } ∷ [];
  dropped_item_ids = "b" ∷ [];
  dropped_count = 1;
  bytes = 10;
  tokens = 2;
  compacted = true;
}

abbrev full : ContextBuildResult
full = record {
  messages =
      record { role = system; content = "rules" }
      ∷ record { role = user; content = "what is it?" }
      ∷ record { role = user; content = "go on" }
      ∷ [];
  dropped_item_ids = [];
  dropped_count = 0;
  bytes = 21;
  tokens = 3;
  compacted = false;
}

build-short : build (manager 12) ≡ ok short
unfolding build
build-short = refl

build-full : build (manager 30) ≡ ok full
unfolding build
build-full = refl

build-IsBuilt_example : IsBuilt (manager 12) short
build-IsBuilt_example = build-IsBuilt (manager 12) short build-short

all_bytes : sum_bytes (manager 30).items ≡ 21
unfolding sum_bytes to_message message_bytes
all_bytes = refl

all_tokens : sum_tokens (options 30) (manager 30).items ≡ 3
unfolding sum_tokens message_tokens to_message
all_tokens = refl

build_lossless_example :
    (full.messages ≡ map to_message (manager 30).items)
    × (full.dropped_item_ids ≡ [])
    × (full.compacted ≡ false)
build_lossless_example =
    build_lossless (manager 30) full build-full (omega (arith, all_bytes))
      (omega (arith, all_tokens))

estimator-IsTotal : (n : ℕ) → IsTotal (options n)
unfolding message_tokens
estimator-IsTotal n m = (1, refl)

build_total_example :
    ((5 < protected_bytes (manager 5).items)
        ⊎ ((options 5).max_tokens < protected_tokens (options 5) (manager 5).items)
      → build (manager 5)
        ≡ err (
            budget
              (protected_bytes (manager 5).items)
              (protected_tokens (options 5) (manager 5).items)))
    × (protected_bytes (manager 5).items ≤ 5
        → protected_tokens (options 5) (manager 5).items ≤ (options 5).max_tokens
        → IsOk (build (manager 5)))
build_total_example = build_total (manager 5) (estimator-IsTotal 5)
