-- ===== src/Stream/Batches.antt =====
-- What the batches of a stream hold.
use mathlib.Core.List.{append-nil, append_assoc}
use vibe_go.Base.{
  String, ◌≡◌, refl, sym, ap, ◌∙◌, inl, inr, true, List, [], ◌∷◌, ◌++◌, arith, ◌&&◌, ◌==◌, ◌=s◌,
  Bool-cases,
}
use vibe_go.Stream.{Event, StreamFlushBatch, StreamBuffer, new, is_empty, push, emit, flush}

-- What happens to a buffer between two resets: deltas arrive, and it is flushed, by the timer or by the
-- caller.
pub data Action : Type 0 where
  pushes : Event → String → Action
  flushes : Action

pub run : List Action → StreamBuffer → StreamBuffer
run [] b = b
run (pushes e delta ∷ xs) b = run xs (push e delta b)
run (flushes ∷ xs) b = run xs (flush b)

abbrev pub pushed : List Action → List Event
pushed [] = []
pushed (pushes e delta ∷ xs) = e ∷ pushed xs
pushed (flushes ∷ xs) = pushed xs

-- The events of the batches, oldest first.
abbrev pub delivered : List StreamFlushBatch → List Event
delivered [] = []
delivered (f ∷ fs) = delivered fs ++ f.events

abbrev seen : StreamBuffer → List Event
seen b = delivered b.flushed ++ b.events

empty : (es : List Event) → is_empty es ≡ true → es ≡ []
unfolding is_empty
empty [] h = refl
empty (e ∷ es) h = absurd (ground arith)

flush_lem : (b : StreamBuffer) → (seen (flush b) ≡ seen b) × ((flush b).events ≡ [])
unfolding flush emit is_empty
flush_lem b = elim (Bool-cases ((b.text =s "") && is_empty b.events && (b.last_event_seq == 0))) [
  | inl idle ↦ rw (idle, flush) (refl, empty b.events (ground (arith, idle)))
  | inr busy ↦ rw (busy, flush) (append-nil (delivered b.flushed ++ b.events), refl)
]

push-seen :
    (e : Event) (delta : String) (b : StreamBuffer) → seen (push e delta b) ≡ seen b ++ e ∷ []
unfolding push
push-seen e delta b = sym (append_assoc (delivered b.flushed) b.events (e ∷ []))

run-seen : (xs : List Action) (b : StreamBuffer) → seen (run xs b) ≡ seen b ++ pushed xs
unfolding run
run-seen [] b = sym (append-nil (seen b))
run-seen (pushes e delta ∷ xs) b =
    run-seen xs (push e delta b)
    ∙ ap (λ s. s ++ pushed xs) (push-seen e delta b)
    ∙ append_assoc (seen b) (e ∷ []) (pushed xs)
run-seen (flushes ∷ xs) b = run-seen xs (flush b) ∙ ap (λ s. s ++ pushed xs) (flush_lem b).0

-- However pushes and flushes alternate, a last flush completes the delivery: the batches hold every
-- event that was pushed, once and in order, and the buffer keeps none.
pub run-flush :
    (xs : List Action)
    → (delivered (flush (run xs new)).flushed ≡ pushed xs) × ((flush (run xs new)).events ≡ [])
run-flush xs =
    let (same, none_left) = flush_lem (run xs new) in
    (
      sym (append-nil (delivered (flush (run xs new)).flushed))
          ∙ ap (λ es. delivered (flush (run xs new)).flushed ++ es) (sym none_left)
          ∙ same
          ∙ run-seen xs new,
      none_left,
    )
