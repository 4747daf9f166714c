-- ===== src/Events.antt =====
-- `InMemoryEventStore` of packages/storage/src/index.ts, with the event types of
-- packages/contracts/src/index.ts. The ids that the uuid library makes and the time of the clock are
-- arguments: `make_id` gives the id of each event of a batch.
pub mod Numbering
pub mod Resuming
mod Examples
use vibe_go.Base.{
  ℕ, suc, ◌+◌, String, Bool, false, not, Option, none, some, List, [], ◌∷◌, ◌++◌, ◌=s◌, ltb,
  if◌then◌else◌, length, any, filter_by, map,
}
use vibe_go.Base.Keyed.{find, put}

pub data EventSource : Type 0 where
  user orchestrator model tool policy sandbox system : EventSource

pub record NewDomainEvent (P : Type 0) : Type 0 where
  pub run_id : String
  pub type : String
  pub source : EventSource
  pub correlation_id : String
  pub payload : P

pub record StoredEvent (P : Type 0) : Type 0 where
  pub event : NewDomainEvent P
  pub version : ℕ
  pub id : String
  pub seq : ℕ
  pub at : String

-- An entry of the map `events`.
pub record Log (P : Type 0) : Type 0 where
  pub run_id : String
  pub events : List (StoredEvent P)

pub data Batch (P : Type 0) : Type 0 where
  stored : List (StoredEvent P) → Batch P
  no_single_run : Batch P

module _ {P : Type 0} where
  abbrev pub log_key : Log P → String
  log_key l = l.run_id

  -- `this.events.get(runId) ?? []`
  unfoldable pub events_of : String → List (Log P) → List (StoredEvent P)
  events_of run_id s = elim (find log_key run_id s) [ none ↦ [] | some l ↦ l.events ]

  -- `.at(-1)?.seq ?? 0`
  abbrev pub last_of : List (StoredEvent P) → ℕ
  last_of [] = 0
  last_of (e ∷ []) = e.seq
  last_of (e ∷ f ∷ es) = last_of (f ∷ es)

  unfoldable pub last_seq : String → List (Log P) → ℕ
  unfolding events_of
  last_seq run_id s = last_of (events_of run_id s)

  pub build_stored : NewDomainEvent P → String → String → List (Log P) → StoredEvent P
  unfolding last_seq
  build_stored e id at s = record {
    event = e;
    version = 1;
    id = id;
    seq = last_seq e.run_id s + 1;
    at = at;
  }

  pub append : NewDomainEvent P → String → String → List (Log P) → List (Log P) × StoredEvent P
  unfolding build_stored
  append e id at s = (
    put log_key
        (record { run_id = e.run_id; events = events_of e.run_id s ++ build_stored e id at s ∷ [] })
        s,
    build_stored e id at s,
  )

  -- The `map` over the batch: `count` is `current.length` and `index` counts.
  pub build_batch : List (NewDomainEvent P) → (ℕ → String) → String → ℕ → ℕ → List (StoredEvent P)
  build_batch [] make_id at count index = []
  build_batch (e ∷ es) make_id at count index =
      record { event = e; version = 1; id = make_id index; seq = count + index + 1; at = at }
      ∷ build_batch es make_id at count (suc index)

  -- The error for a batch with no run id or with several.
  pub single_run : String → List (NewDomainEvent P) → Bool
  single_run run_id es =
      if run_id =s "" then false else not (any (λ e. not (e.run_id =s run_id)) es)

  pub append_batch :
      List (NewDomainEvent P) → (ℕ → String) → String → List (Log P) → List (Log P) × Batch P
  append_batch [] make_id at s = (s, stored [])
  append_batch (e ∷ es) make_id at s =
      if single_run e.run_id (e ∷ es)
      then (
        put log_key
            (record {
              run_id = e.run_id;
              events =
                  events_of e.run_id s
                  ++ build_batch (e ∷ es) make_id at (length (events_of e.run_id s)) 0;
            })
            s,
        stored (build_batch (e ∷ es) make_id at (length (events_of e.run_id s)) 0),
      )
      else (s, no_single_run)

  pub read : String → ℕ → List (Log P) → List (StoredEvent P)
  read run_id after_seq s = filter_by (λ e. ltb after_seq e.seq) (events_of run_id s)

  pub list_run_ids : List (Log P) → List String
  list_run_ids s = map log_key s
