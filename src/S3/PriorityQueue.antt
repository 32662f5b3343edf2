-- ===== src/S3/PriorityQueue.antt =====
-- `StablePriorityQueue` of awscli/customizations/s3/utils.py: the hooks `_put`, `_get` and `_qsize`
-- that `queue.Queue` calls under its lock.
pub mod Stable
use m_awsexp.Common.{ℕ, Option, List, length, ◌∷◌, [], ◌+◌, none, suc, some, min, ◌++◌, zero}

pub record PriorityQueue {ℓ} (A : Type ℓ) : Type ℓ where
  pub priorities : List (List A)
  pub default_priority : ℕ

-- [deque([]) for i in range(n)]
empty_buckets {ℓ} : {A : Type ℓ} → ℕ → List (List A)
empty_buckets zero = []
empty_buckets (suc n) = [] ∷ empty_buckets n

module _ {ℓ} {A : Type ℓ} where
  -- __init__
  unfoldable pub init : ℕ → PriorityQueue A
  unfolding empty_buckets
  init max_priority = record {
    priorities = empty_buckets (max_priority + 1);
    default_priority = max_priority;
  }

  total_length : List (List A) → ℕ
  total_length [] = 0
  total_length (bucket ∷ buckets) = length bucket + total_length buckets

  -- _qsize
  unfoldable pub qsize : PriorityQueue A → ℕ
  unfolding total_length
  qsize q = total_length q.priorities

  -- self.priorities[priority].append(item)
  append_at : ℕ → A → List (List A) → List (List A)
  append_at n item [] = []
  append_at zero item (bucket ∷ buckets) = (bucket ++ (item ∷ [])) ∷ buckets
  append_at (suc n) item (bucket ∷ buckets) = bucket ∷ append_at n item buckets

  -- the first bucket that holds something loses its first item
  pop_first : List (List A) → Option (A × List (List A))
  pop_first [] = none
  pop_first ([] ∷ buckets) = elim (pop_first buckets) [
    | none ↦ none
    | some (x, rest) ↦ some (x, [] ∷ rest)
  ]
  pop_first ((x ∷ bucket) ∷ buckets) = some (x, bucket ∷ buckets)

  -- _get; `none` is the `None` that the loop falls through to
  unfoldable pub get : PriorityQueue A → Option (A × PriorityQueue A)
  unfolding pop_first
  get q = elim (pop_first q.priorities) [
    | none ↦ none
    | some (x, rest) ↦ some (x, record q { priorities = rest })
  ]

  module _ (priority_attr : A → Option ℕ) where
    -- getattr(item, 'PRIORITY', self.default_priority), bounded
    abbrev pub priority : PriorityQueue A → A → ℕ
    priority q item = elim (priority_attr item) [
      | none ↦ min q.default_priority q.default_priority
      | some p ↦ min p q.default_priority
    ]

    -- _put
    unfoldable pub put : A → PriorityQueue A → PriorityQueue A
    unfolding append_at
    put item q = record q { priorities = append_at (priority q item) item q.priorities }
