-- ===== src/ThreadPool/Cancel.antt =====
-- The loop of `thrdpool_destroy` of src/thread_pool.c that cancels and joins the workers.
use coop_tasks.Base.{
  ℕ, zero, suc, ◌≡◌, ◌<◌, refl, ap, ◌∙◌, Bool, true, false, Option, none, some, List, [], ◌∷◌, ◌++◌,
  sym, inl, inr, Bool-cases, arith, ◌==◌, if◌then◌else◌,
}

-- The calls of `thrd_cancel` and `thrd_join` for the workers at the indices below `i`, the last
-- first. `runs` tells of each worker whether `thrd_cancel` returns zero for its thread;
-- `pthread_cancel` is undefined for a `thr` that was never set.
pub data Event : Type 0 where
  cancelled : ℕ → Event
  joined : ℕ → Event

abbrev pub then_events : List Event → Option (List Event) → Option (List Event)
then_events first none = none
then_events first (some rest) = some (first ++ rest)

unfoldable pub cancel_workers : (has_thr runs : ℕ → Bool) → ℕ → Option (List Event)
cancel_workers has_thr runs zero = some []
cancel_workers has_thr runs (suc i) =
    let rest = cancel_workers has_thr runs i in
    if has_thr i
    then then_events (cancelled i ∷ (if runs i then joined i ∷ [] else [])) rest
    else none

-- The workers that were cancelled, and those that were joined, in order.
abbrev pub cancelled_of : List Event → List ℕ
cancelled_of [] = []
cancelled_of (cancelled i ∷ events) = i ∷ cancelled_of events
cancelled_of (joined i ∷ events) = cancelled_of events

abbrev pub joined_of : List Event → List ℕ
joined_of [] = []
joined_of (cancelled i ∷ events) = joined_of events
joined_of (joined i ∷ events) = i ∷ joined_of events

-- The numbers below `n` for which the test holds, the last first.
abbrev pub down_from : ℕ → (ℕ → Bool) → List ℕ
down_from zero test = []
down_from (suc n) test = let rest = down_from n test in if test n then n ∷ rest else rest

-- The threads of the first `n` workers are cancelled, and those that `runs` tells are joined next.
pub record CancelledAll (runs : ℕ → Bool) (n : ℕ) (events : List Event) : Type 0 where
  pub cancels : cancelled_of events ≡ down_from n (λ i. true)
  pub joins : joined_of events ≡ down_from n runs
  pub next :
      (i : ℕ)
      → i < n
      → runs i ≡ true
      → (before : List Event) × (after : List Event) × (events
          ≡ before ++ cancelled i ∷ joined i ∷ after)

pub cancel_workers-CancelledAll :
    (has_thr runs : ℕ → Bool) (n : ℕ)
    → ((i : ℕ) → i < n → has_thr i ≡ true)
    → (events : List Event) × (cancel_workers has_thr runs n ≡ some events)
      × CancelledAll runs n events
unfolding cancel_workers
cancel_workers-CancelledAll has_thr runs zero all =
    ([], refl, record { cancels = refl; joins = refl; next = λ i lt ok. absurd (omega arith) })
cancel_workers-CancelledAll has_thr runs (suc n) all =
    let (events, is, order) =
      cancel_workers-CancelledAll has_thr runs n (λ i lt. all i (omega arith)) in
    elim (Bool-cases (runs n)) [
      | inl there ↦ (
        cancelled n ∷ joined n ∷ events,
        rw (all n (omega arith), is, there),
        record {
          cancels = ap (λ l. n ∷ l) order.cancels;
          joins = rw there (ap (λ l. n ∷ l) order.joins);
          next = λ i lt ok. elim (Bool-cases (i == n)) [
            | inl same ↦
                let at : n ≡ i = ground arith in
                ([], events, ap (λ k. cancelled k ∷ joined k ∷ events) at)
            | inr other ↦
                let (before, after, split) = order.next i (ground arith) ok in
                (cancelled n ∷ joined n ∷ before, after, ap (λ l. cancelled n ∷ joined n ∷ l) split)
          ];
        },
      )
      | inr gone ↦ (
        cancelled n ∷ events,
        rw (all n (omega arith), is, gone),
        record {
          cancels = ap (λ l. n ∷ l) order.cancels;
          joins = rw gone order.joins;
          next = λ i lt ok. elim (Bool-cases (i == n)) [
            | inl same ↦
                let at : i ≡ n = ground arith in
                absurd (ground (arith, sym (ap runs at) ∙ ok, gone))
            | inr other ↦
                let (before, after, split) = order.next i (ground arith) ok in
                (cancelled n ∷ before, after, ap (λ l. cancelled n ∷ l) split)
          ];
        },
      )
    ]

-- A worker without a thread: the destroying of its pool is undefined.
cancel_workers-none :
    (has_thr runs : ℕ → Bool) (n i : ℕ)
    → i < n
    → has_thr i ≡ false
    → cancel_workers has_thr runs n ≡ none
unfolding cancel_workers
cancel_workers-none has_thr runs zero i lt none_ = absurd (omega arith)
cancel_workers-none has_thr runs (suc n) i lt none_ = elim (Bool-cases (i == n)) [
  | inl same ↦ let at : n ≡ i = ground arith in rw (ap has_thr at ∙ none_)
  | inr other ↦ elim (Bool-cases (has_thr n)) [
    | inl there ↦ rw (there, cancel_workers-none has_thr runs n i (ground arith) none_)
    | inr gone ↦ rw gone
  ]
]
