-- ===== src/Context/Compaction.antt =====
-- `compact` of packages/context/src/index.ts: a summary joins the items, and names what it stands for.
use vibe_go.Base.{
  ℕ, suc, ◌+◌, true, false, not, ◌||◌, Option, none, some, List, [], ◌∷◌, ◌=s◌, leb, if◌then◌else◌,
  filter_by, any,
}
use vibe_go.Context.{
  ContextItem, model_source, trusted, assistant, snapshot, Manager, ContextBuildResult,
  CompactionInput, CompactionResult, Result, ok, err, invalid_compaction, ◌>>=◌, or_else, positive,
  item_key, ids, add, build,
}

abbrev pub insert_number : ℕ → List ℕ → List ℕ
insert_number n [] = n ∷ []
insert_number n (x ∷ xs) = if leb n x then n ∷ x ∷ xs else x ∷ insert_number n xs

abbrev pub sort_numbers : List ℕ → List ℕ
sort_numbers [] = []
sort_numbers (x ∷ xs) = insert_number x (sort_numbers xs)

-- `item.sequence ?? index + 1`
pub sequences : ℕ → List ContextItem → List ℕ
sequences index [] = []
sequences index (i ∷ is) = or_else i.sequence (index + 1) ∷ sequences (suc index) is

abbrev first : List ℕ → Option ℕ
first [] = none
first (n ∷ ns) = some n

abbrev last : List ℕ → Option ℕ
last [] = none
last (n ∷ []) = some n
last (n ∷ m ∷ ns) = last (m ∷ ns)

summary_item : CompactionInput → ContextItem
summary_item c = record {
  id = c.id;
  source = model_source;
  trust = trusted;
  role = assistant;
  content = c.summary;
  preserve = some snapshot;
  sequence = some c.sequence;
}

-- The items that the build dropped.
pub sources : Manager → ContextBuildResult → List ContextItem
sources m b = filter_by (λ i. any (λ id. id =s item_key i) b.dropped_item_ids) m.items

pub compaction : CompactionInput → List ContextItem → CompactionResult
unfolding sequences
compaction c dropped = record {
  compacted = true;
  summary_item_id = some c.id;
  source_seq_start = first (sort_numbers (sequences 0 dropped));
  source_seq_end = last (sort_numbers (sequences 0 dropped));
  source_item_ids = ids dropped;
}

not_compacted : CompactionResult
not_compacted = record {
  compacted = false;
  summary_item_id = none;
  source_seq_start = none;
  source_seq_end = none;
  source_item_ids = [];
}

pub compact : CompactionInput → Manager → Result (Manager × CompactionResult)
unfolding build sources compaction not_compacted summary_item add
compact c m =
    if (c.id =s "") || (c.summary =s "") || not (positive c.sequence)
    then err invalid_compaction
    else build m >>= λ b.
        if not b.compacted
        then ok (m, not_compacted)
        else add (summary_item c) m >>= λ n. ok (n, compaction c (sources m b))
