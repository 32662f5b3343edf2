-- ===== src/S3/PriorityQueue/Stable.antt =====
-- The queue serves the lowest priority number first, and equal numbers in the order of arrival.
use native.Mathlib.Nat.{le_refl}
use m_awsexp.S3.PriorityQueue.{
  PriorityQueue, init, put, priority, append_at, empty_buckets, pop_first, total_length, get, qsize,
}
use m_awsexp.Common.{
  ℕ, List, length, ◌<◌, ◌+◌, ◌++◌, ◌≡◌, ◌≤◌, ◌∷◌, if◌then◌else◌, suc, arith, [], zero, refl, ltb,
  Option, none, ◌∙◌, min, some, ap, sym, length-append,
}
use mathlib.Core.List.{append_assoc}

length-empty_buckets {ℓ} : (A : Type ℓ) (n : ℕ) → length (empty_buckets {A = A} n) ≡ n
unfolding empty_buckets
length-empty_buckets A zero = refl
length-empty_buckets A (suc n) = omega (arith, length-empty_buckets A n)

-- The items in the order in which `_get` returns them, each with its bucket's number.
module _ {ℓ} {A : Type ℓ} where
  tagged : ℕ → List A → List (ℕ × A)
  tagged n [] = []
  tagged n (x ∷ xs) = (n, x) ∷ tagged n xs

  order_from : ℕ → List (List A) → List (ℕ × A)
  order_from n [] = []
  order_from n (bucket ∷ buckets) = tagged n bucket ++ order_from (suc n) buckets

  pub order : PriorityQueue A → List (ℕ × A)
  order q = order_from 0 q.priorities

  -- The specification: a list of numbered items, into which a new one goes behind all those that
  -- have its number or a lower one.
  pub insert_stable : ℕ → A → List (ℕ × A) → List (ℕ × A)
  insert_stable p x [] = (p, x) ∷ []
  insert_stable p x ((q, y) ∷ rest) =
      let later = insert_stable p x rest in
      if ltb p q then (p, x) ∷ (q, y) ∷ rest else (q, y) ∷ later

  insert_stable-tagged :
      (p n : ℕ) (x : A) (xs : List A) (rest : List (ℕ × A))
      → n ≤ p
      → insert_stable p x (tagged n xs ++ rest) ≡ tagged n xs ++ insert_stable p x rest
  unfolding insert_stable tagged
  insert_stable-tagged p n x [] rest h = refl
  insert_stable-tagged p n x (y ∷ xs) rest h =
      rw (insert_stable-tagged p n x xs rest h) (ground arith)

  tagged-append :
      (n : ℕ) (xs : List A) (x : A) → tagged n (xs ++ x ∷ []) ≡ tagged n xs ++ (n, x) ∷ []
  unfolding tagged
  tagged-append n [] x = refl
  tagged-append n (y ∷ xs) x = rw (tagged-append n xs x)

  insert_stable-first :
      (p n : ℕ) (x : A) (buckets : List (List A))
      → p < n
      → insert_stable p x (order_from n buckets) ≡ (p, x) ∷ order_from n buckets
  unfolding insert_stable order_from tagged
  insert_stable-first p n x [] h = refl
  insert_stable-first p n x ([] ∷ buckets) h = insert_stable-first p (suc n) x buckets (omega arith)
  insert_stable-first p n x ((y ∷ ys) ∷ buckets) h = ground arith

  order_from-append_at :
      (n k : ℕ) (x : A) (buckets : List (List A))
      → k < length buckets
      → order_from n (append_at k x buckets) ≡ insert_stable (n + k) x (order_from n buckets)
  unfolding order_from append_at
  order_from-append_at n k x [] h = absurd (omega arith)
  order_from-append_at n zero x (bucket ∷ buckets) h =
      let e : n + zero ≡ n = omega arith in
      rw (
        e,
        insert_stable-tagged n n x bucket (order_from (suc n) buckets) (le_refl n),
        insert_stable-first n (suc n) x buckets (omega arith),
        tagged-append n bucket x,
        append_assoc,
      )
  order_from-append_at n (suc k) x (bucket ∷ buckets) h =
      let e : suc n + k ≡ n + suc k = omega arith in
      rw (
        insert_stable-tagged (n + suc k) n x bucket (order_from (suc n) buckets) (omega arith),
        order_from-append_at (suc n) k x buckets (omega arith),
        e,
      )

  -- The buckets are those that `__init__` makes.
  pub record IsWhole (q : PriorityQueue A) : Type ℓ where
    pub buckets : length q.priorities ≡ q.default_priority + 1

  length-append_at :
      (k : ℕ) (x : A) (buckets : List (List A)) → length (append_at k x buckets) ≡ length buckets
  unfolding append_at
  length-append_at k x [] = refl
  length-append_at zero x (b ∷ bs) = refl
  length-append_at (suc k) x (b ∷ bs) = omega (arith, length-append_at k x bs)

  pub init-IsWhole : (max_priority : ℕ) → IsWhole (init {A = A} max_priority)
  unfolding init
  init-IsWhole n = record { buckets = length-empty_buckets A (n + 1) }

  put-IsWhole :
      (prio : A → Option ℕ) (x : A) (q : PriorityQueue A) → IsWhole q → IsWhole (put prio x q)
  unfolding put
  put-IsWhole prio x q w = record {
    buckets = length-append_at (priority prio q x) x q.priorities ∙ w.buckets;
  }

  priority-le :
      (prio : A → Option ℕ) (x : A) (q : PriorityQueue A) → priority prio q x ≤ q.default_priority
  priority-le prio x q =
      elim (prio x)
        as (λ o.
          elim o as (λ _. ℕ) [
            | none ↦ min q.default_priority q.default_priority
            | some p ↦ min p q.default_priority
          ]
          ≤ q.default_priority) [ none ↦ omega arith | some p ↦ omega arith ]

  -- `_put` puts an item behind all those whose priority number is at most its own, which is its
  -- PRIORITY cut off at the maximum, and the maximum if it has none; nothing else moves.
  pub put-order :
      (prio : A → Option ℕ) (x : A) (q : PriorityQueue A)
      → IsWhole q
      → (order (put prio x q) ≡ insert_stable (priority prio q x) x (order q))
        × IsWhole (put prio x q)
  unfolding put order
  put-order prio x q w =
      let e : 0 + priority prio q x ≡ priority prio q x = omega arith in
      (
        order_from-append_at 0 (priority prio q x) x q.priorities
              (omega (arith, w.buckets, priority-le prio x q))
            ∙ rw e,
        put-IsWhole prio x q w,
      )

  PopsFrom : ℕ → List (List A) → List (ℕ × A) → Option (A × List (List A)) → Type ℓ
  PopsFrom n buckets [] r = r ≡ none
  PopsFrom n buckets ((m, x) ∷ rest) r =
      (left : List (List A)) × (r ≡ some (x, left))
      × (order_from n left ≡ rest)
      × (length left ≡ length buckets)

  pops_past :
      (n : ℕ) (buckets : List (List A)) (items : List (ℕ × A)) (r : Option (A × List (List A)))
      → PopsFrom (suc n) buckets items r
      → PopsFrom n
          ([] ∷ buckets)
          items
          (elim r [ none ↦ none | some (x, rest) ↦ some (x, [] ∷ rest) ])
  unfolding PopsFrom order_from tagged
  pops_past n buckets [] r e = rw e
  pops_past n buckets ((m, x) ∷ rest) r (left, e, o, l) = ([] ∷ left, rw e, o, ap suc l)

  pop_first-PopsFrom :
      (n : ℕ) (buckets : List (List A))
      → PopsFrom n buckets (order_from n buckets) (pop_first buckets)
  unfolding pop_first order_from tagged
  pop_first-PopsFrom n [] = unfold PopsFrom in refl
  pop_first-PopsFrom n ([] ∷ buckets) =
      pops_past n buckets (order_from (suc n) buckets) (pop_first buckets)
        (pop_first-PopsFrom (suc n) buckets)
  pop_first-PopsFrom n ((x ∷ bucket) ∷ buckets) =
      unfold PopsFrom in (bucket ∷ buckets, refl, refl, refl)

  -- What `_get` must do with the items in the given order.
  pub Pops : PriorityQueue A → List (ℕ × A) → Option (A × PriorityQueue A) → Type ℓ
  Pops q [] r = r ≡ none
  Pops q ((n, x) ∷ rest) r =
      (q' : PriorityQueue A) × (r ≡ some (x, q')) × (order q' ≡ rest) × (IsWhole q → IsWhole q')

  get_of_Pops :
      (q : PriorityQueue A) (items : List (ℕ × A)) (r : Option (A × List (List A)))
      → PopsFrom 0 q.priorities items r
      → Pops q items
          (elim r [ none ↦ none | some (x, rest) ↦ some (x, record q { priorities = rest }) ])
  unfolding PopsFrom Pops order
  get_of_Pops q [] r e = rw e
  get_of_Pops q ((n, x) ∷ items) r (left, e, o, l) =
      (record q { priorities = left }, rw e, o, λ w. record { buckets = l ∙ w.buckets })

  -- `_get` takes the first item of the order and leaves the rest as it was; it finds none exactly if
  -- there is none.
  pub get-order : (q : PriorityQueue A) → Pops q (order q) (get q)
  unfolding get order
  get-order q = get_of_Pops q _ _ (pop_first-PopsFrom 0 q.priorities)

  length-tagged : (n : ℕ) (xs : List A) → length (tagged n xs) ≡ length xs
  unfolding tagged
  length-tagged n [] = refl
  length-tagged n (x ∷ xs) = ap suc (length-tagged n xs)

  length-order_from :
      (n : ℕ) (buckets : List (List A)) → length (order_from n buckets) ≡ total_length buckets
  unfolding order_from total_length
  length-order_from n [] = refl
  length-order_from n (b ∷ bs) = omega (
    arith,
    length-append (tagged n b) (order_from (suc n) bs),
    length-tagged n b,
    length-order_from (suc n) bs,
  )

  -- `_qsize` counts the items.
  pub qsize-order : (q : PriorityQueue A) → qsize q ≡ length (order q)
  unfolding qsize order
  qsize-order q = sym (length-order_from 0 q.priorities)
