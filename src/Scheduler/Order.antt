-- ===== src/Scheduler/Order.antt =====
-- Which queue entry `pickCandidateIndex` returns.
use vibe_go.Base.{
  ◌==◌, Option, ◌≤◌, ℕ, suc, ◌+◌, ◌≡◌, refl, sym, subst, true, false, none, some, List, [], ◌∷◌,
  inl, inr, arith, All, All-map, Bool-cases, get_elem?, ◌↔◌,
}
use vibe_go.Scheduler.{
  Priority, interactive, rank, Policy, ActiveEntry, QueueEntry, Scheduler, not_after, can_grant,
  enumerate, insert_sorted, sort, first_grantable, pick_candidate_index,
}

not_after_total : (a b : QueueEntry) → not_after a b ≡ false → not_after b a ≡ true
not_after_total a b h = ground arith

not_after_trans :
    (a b c : QueueEntry) → not_after a b ≡ true → not_after b c ≡ true → not_after a c ≡ true
not_after_trans a b c h k = ground arith

module _ {κ} (P : QueueEntry × ℕ → Type κ) where
  All-insert_sorted :
      (x : QueueEntry × ℕ) (ys : List (QueueEntry × ℕ))
      → P x
      → All P ys
      → All P (insert_sorted x ys)
  unfolding insert_sorted
  All-insert_sorted x [] p h = (p, tt)
  All-insert_sorted x (y ∷ ys) p h = elim (Bool-cases (not_after x.0 y.0)) [
    | inl e ↦ rw e (p, h)
    | inr e ↦ rw e (h.0, All-insert_sorted x ys p h.1)
  ]

  All-insert_sorted_inv :
      (x : QueueEntry × ℕ) (ys : List (QueueEntry × ℕ))
      → All P (insert_sorted x ys)
      → P x × All P ys
  unfolding insert_sorted
  All-insert_sorted_inv x [] h = h
  All-insert_sorted_inv x (y ∷ ys) h = elim (Bool-cases (not_after x.0 y.0)) [
    | inl e ↦ rw (e, insert_sorted) at h
    | inr e ↦
        let h' : P y × All P (insert_sorted x ys) = rw (e, insert_sorted) at h in
        let (p, k) = All-insert_sorted_inv x ys h'.1 in (p, (h'.0, k))
  ]

  All-sort : (xs : List (QueueEntry × ℕ)) → All P xs ↔ All P (sort xs)
  unfolding sort
  All-sort [] = (λ h. h, λ h. h)
  All-sort (x ∷ xs) = (
    λ h. All-insert_sorted x (sort xs) h.0 ((All-sort xs).0 h.1),
    λ h. let (p, k) = All-insert_sorted_inv x (sort xs) h in (p, (All-sort xs).1 k),
  )

-- Sorted by the comparator.
abbrev IsSorted : List (QueueEntry × ℕ) → Type 0
IsSorted [] = Unit {0}
IsSorted (x ∷ xs) = All (λ (y : QueueEntry × ℕ). not_after x.0 y.0 ≡ true) xs × IsSorted xs

insert_sorted-IsSorted :
    (x : QueueEntry × ℕ) (ys : List (QueueEntry × ℕ)) → IsSorted ys → IsSorted (insert_sorted x ys)
unfolding insert_sorted
insert_sorted-IsSorted x [] h = (tt, tt)
insert_sorted-IsSorted x (y ∷ ys) h = elim (Bool-cases (not_after x.0 y.0)) [
  | inl e ↦ rw e ((e, All-map ys (λ z k. not_after_trans x.0 y.0 z.0 e k) h.0), h)
  | inr e ↦ rw e (
    All-insert_sorted (λ z. not_after y.0 z.0 ≡ true) x ys (not_after_total x.0 y.0 e) h.0,
    insert_sorted-IsSorted x ys h.1,
  )
]

sort-IsSorted : (xs : List (QueueEntry × ℕ)) → IsSorted (sort xs)
unfolding sort
sort-IsSorted [] = tt
sort-IsSorted (x ∷ xs) = insert_sorted-IsSorted x (sort xs) (sort-IsSorted xs)

All-enumerate :
    (P : QueueEntry → Type 0) (n : ℕ) (q : List QueueEntry)
    → All (λ (x : QueueEntry × ℕ). P x.0) (enumerate n q)
    → All P q
unfolding enumerate
All-enumerate P n [] h = tt
All-enumerate P n (e ∷ q) h = (h.0, All-enumerate P (suc n) q h.1)

-- A pair of the enumeration points into the queue.
abbrev PointsInto : List QueueEntry → ℕ → QueueEntry × ℕ → Type 0
PointsInto q n x = (j : ℕ) × (x.1 ≡ n + j) × (get_elem? q j ≡ some x.0)

enumerate-PointsInto : (n : ℕ) (q : List QueueEntry) → All (PointsInto q n) (enumerate n q)
unfolding enumerate
enumerate-PointsInto n [] = tt
enumerate-PointsInto n (e ∷ q) = (
  (0, omega arith, refl),
  All-map (enumerate (suc n) q) (λ x h. (suc h.0, omega (arith, h.1), h.2))
      (enumerate-PointsInto (suc n) q),
)

module _ (p : Policy) (es : List ActiveEntry) where
  abbrev IsBest : QueueEntry → QueueEntry → Type 0
  IsBest e x = can_grant p es x.request ≡ true → not_after e x ≡ true

  first_grantable-none :
      (xs : List (QueueEntry × ℕ))
      → first_grantable p es xs ≡ none
      → All (λ (x : QueueEntry × ℕ). can_grant p es x.0.request ≡ false) xs
  unfolding first_grantable
  first_grantable-none [] h = tt
  first_grantable-none ((e, i) ∷ xs) h = elim (Bool-cases (can_grant p es e.request)) [
    | inl g ↦ absurd (ground arith)
    | inr g ↦ (g, first_grantable-none xs (rw (g, first_grantable) at h))
  ]

  first_grantable-some :
      (Q : QueueEntry × ℕ → Type 0) (xs : List (QueueEntry × ℕ)) (i : ℕ)
      → IsSorted xs
      → All Q xs
      → first_grantable p es xs ≡ some i
      → (e : QueueEntry) × Q (e, i)
        × (can_grant p es e.request ≡ true)
        × All (λ (x : QueueEntry × ℕ). IsBest e x.0) xs
  unfolding first_grantable
  first_grantable-some Q [] i s q h = absurd (ground arith)
  first_grantable-some Q ((e, j) ∷ xs) i s q h = elim (Bool-cases (can_grant p es e.request)) [
    | inl g ↦
        let same : j ≡ i = ground arith in
        (
          e,
          subst (λ k. Q (e, k)) same q.0,
          g,
          (λ _. ground arith, All-map xs (λ x before _. before) s.0),
        )
    | inr g ↦
        let (best, there, able, rest) =
          first_grantable-some Q xs i s.1 q.1 (rw (g, first_grantable) at h) in
        (best, there, able, (λ able'. absurd (ground arith), rest))
  ]

-- `e` comes before `x`: an interactive request before any other, and among requests that are
-- interactive, or among those that are not, the one that was queued first.
abbrev pub IsBefore : QueueEntry → QueueEntry → Type 0
IsBefore e x =
    (x.request.priority ≡ some interactive → e.request.priority ≡ some interactive)
    × ((e.request.priority ≡ some interactive → x.request.priority ≡ some interactive)
        → e.order ≤ x.order)

interactive_rank : (p : Option Priority) → rank p ≡ 1 → p ≡ some interactive
interactive_rank p e = ground (arith, e)

rank_interactive : (p : Option Priority) → p ≡ some interactive → rank p ≡ 1
rank_interactive p e = rw e refl

rank_bound : (p : Option Priority) → rank p ≤ 1
rank_bound p = ground arith

not_after-IsBefore : (e x : QueueEntry) → not_after e x ≡ true → IsBefore e x
not_after-IsBefore e x h = (
  λ first.
      interactive_rank e.request.priority (
        ground
          (arith, h, rank_interactive x.request.priority first, rank_bound e.request.priority)),
  λ follows. elim (Bool-cases (rank e.request.priority == rank x.request.priority)) [
    | inl same ↦ ground (arith, h, same)
    | inr apart ↦
        let first : rank e.request.priority ≡ 1 =
          ground (arith, h, apart, rank_bound e.request.priority) in
        absurd (
          ground (
            arith,
            h,
            apart,
            first,
            rank_interactive x.request.priority
                (follows (interactive_rank e.request.priority first)),
          ))
  ],
)

-- The chosen entry can be granted, and it comes before every queued entry that can: interactive
-- requests first, and then the one that was queued first.
pub pick_candidate_index-some :
    (s : Scheduler) (i : ℕ)
    → pick_candidate_index s ≡ some i
    → (e : QueueEntry) × (get_elem? s.queue i ≡ some e)
      × (can_grant s.policy s.active e.request ≡ true)
      × All (λ x. can_grant s.policy s.active x.request ≡ true → IsBefore e x) s.queue
unfolding pick_candidate_index
pick_candidate_index-some s i h =
    let all = All-sort (PointsInto s.queue 0) (enumerate 0 s.queue) in
    let (e, there, able, best) =
      first_grantable-some s.policy s.active (PointsInto s.queue 0) (sort (enumerate 0 s.queue)) i
        (sort-IsSorted (enumerate 0 s.queue)) (all.0 (enumerate-PointsInto 0 s.queue)) h in
    let same : i ≡ there.0 = omega (arith, there.1) in
    (
      e,
      subst (λ k. get_elem? s.queue k ≡ some e) (sym same) there.2,
      able,
      All-map s.queue (λ x k able'. not_after-IsBefore e x (k able'))
          (All-enumerate (IsBest s.policy s.active e) 0 s.queue
            ((All-sort (λ x. IsBest s.policy s.active e x.0) (enumerate 0 s.queue)).1 best)),
    )

-- No index: nothing in the queue can be granted.
pub pick_candidate_index-none :
    (s : Scheduler)
    → pick_candidate_index s ≡ none
    → All (λ x. can_grant s.policy s.active x.request ≡ false) s.queue
unfolding pick_candidate_index
pick_candidate_index-none s h =
    All-enumerate (λ x. can_grant s.policy s.active x.request ≡ false) 0 s.queue
      ((All-sort (λ x. can_grant s.policy s.active x.0.request ≡ false) (enumerate 0 s.queue)).1
        (first_grantable-none s.policy s.active (sort (enumerate 0 s.queue)) h))
