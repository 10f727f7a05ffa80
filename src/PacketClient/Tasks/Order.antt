-- ===== src/PacketClient/Tasks/Order.antt =====
-- The events of waiting coroutines: distinct, and set only in front of those of their packet type.
use kb_networking_cpp.Prelude.{
  ℕ, ◌≡◌, ◌≢◌, refl, sym, ◌∙◌, Bool, true, false, List, [], ◌∷◌, ◌++◌, arith, if◌then◌else◌, ◌==◌,
  Bool-cases, inl, inr, All, All-map, All-append, All-remove, All-at,
}
use kb_networking_cpp.PacketClient.Tasks.{Task}

-- The events of the coroutines that wait for a packet type, the first to wait first.
unfoldable pub events_of : ℕ → List Task → List ℕ
events_of t [] = []
events_of t ((j, e) ∷ tasks) = let rest = events_of t tasks in if j == t then e ∷ rest else rest

pub events_of-last :
    (t j e : ℕ) (tasks : List Task)
    → events_of t (tasks ++ (j, e) ∷ [])
      ≡ (if j == t then events_of t tasks ++ e ∷ [] else events_of t tasks)
unfolding events_of
events_of-last t j e [] = refl
events_of-last t j e (task ∷ tasks) = ground (arith, events_of-last t j e tasks)

-- Without a coroutine the queues of the other packet types stay.
pub events_of-other :
    (j t e : ℕ) (xs ys : List Task)
    → t ≢ j
    → events_of j (xs ++ (t, e) ∷ ys) ≡ events_of j (xs ++ ys)
unfolding events_of
events_of-other j t e [] ys h = ground arith
events_of-other j t e (x ∷ xs) ys h = ground (arith, events_of-other j t e xs ys h)

-- The queue of a packet type from its first coroutine.
pub events_of-first :
    (t e : ℕ) (xs ys : List Task)
    → events_of t xs ≡ []
    → (events_of t (xs ++ (t, e) ∷ ys) ≡ e ∷ events_of t ys)
      × (events_of t (xs ++ ys) ≡ events_of t ys)
unfolding events_of
events_of-first t e [] ys h = (ground arith, refl)
events_of-first t e (x ∷ xs) ys h = ground (arith, events_of-first t e xs ys)

-- The second coroutine has another event, which is not set if both wait for one packet type.
abbrev pub Behind : (ℕ → Bool) → Task → Task → Type 0
Behind is_set task later = (task.1 ≢ later.1) × (later.0 ≡ task.0 → is_set later.1 ≡ false)

-- Each event is that of one coroutine, and of the coroutines of a packet type only the first may
-- have its event set.
abbrev pub Ordered : (ℕ → Bool) → List Task → Type 0
Ordered is_set [] = Unit {0}
Ordered is_set (task ∷ tasks) = All (Behind is_set task) tasks × Ordered is_set tasks

pub events_of-append :
    (t : ℕ) (xs ys : List Task) → events_of t (xs ++ ys) ≡ events_of t xs ++ events_of t ys
unfolding events_of
events_of-append t [] ys = refl
events_of-append t ((j, e) ∷ xs) ys = elim (Bool-cases (j == t)) [
  | inl same ↦ rw (same, events_of-append t xs ys) refl
  | inr other ↦ rw (other, events_of-append t xs ys) refl
]

module _ (is_set : ℕ → Bool) where
  -- A coroutine with a new event, which is not set, comes behind the others.
  pub Ordered-append :
      (t e : ℕ) (tasks : List Task)
      → All (λ (task : Task). e ≢ task.1) tasks
      → is_set e ≡ false
      → Ordered is_set tasks
      → Ordered is_set (tasks ++ (t, e) ∷ [])
  Ordered-append t e [] fresh unset v = (tt, tt)
  Ordered-append t e (task ∷ tasks) (new, fresh) unset (behind, v) = (
    All-append (Behind is_set task) tasks ((t, e) ∷ []) behind ((λ h. new (sym h), λ h. unset), tt),
    Ordered-append t e tasks fresh unset v,
  )

  pub Ordered-remove :
      (xs : List Task) (task : Task) (ys : List Task)
      → Ordered is_set (xs ++ task ∷ ys)
      → Ordered is_set (xs ++ ys)
  Ordered-remove [] task ys (behind, v) = v
  Ordered-remove (x ∷ xs) task ys (behind, v) =
      (All-remove (Behind is_set x) xs task ys behind, Ordered-remove xs task ys v)

  -- A coroutine whose event is set is the first of its packet type.
  pub set_is_first :
      (t e : ℕ) (xs ys : List Task)
      → Ordered is_set (xs ++ (t, e) ∷ ys)
      → is_set e ≡ true
      → events_of t xs ≡ []
  unfolding events_of
  set_is_first t e [] ys v h = refl
  set_is_first t e (x ∷ xs) ys (behind, v) h =
      let apart = All-at (Behind is_set x) xs (t, e) ys behind in
      ground (arith, apart.1, set_is_first t e xs ys v h)

  -- The first event of one packet type is not that of a coroutine in front of it, and not that of
  -- a coroutine that waits for another packet type.
  not_first :
      (t e d : ℕ) (rest : List ℕ) (tasks : List Task)
      → All (λ (task : Task). d ≢ task.1) tasks
      → events_of t tasks ≡ e ∷ rest
      → d ≢ e
  unfolding events_of
  not_first t e d rest [] fresh first = cc
  not_first t e d rest (task ∷ tasks) (new, fresh) first = elim (Bool-cases (task.0 == t)) [
    | inl same ↦ ground arith
    | inr other ↦ not_first t e d rest tasks fresh (ground arith)
  ]

  others_not_first :
      (t e : ℕ) (rest : List ℕ) (tasks : List Task)
      → Ordered is_set tasks
      → events_of t tasks ≡ e ∷ rest
      → All (λ (task : Task). task.0 ≢ t → e ≢ task.1) tasks
  unfolding events_of
  others_not_first t e rest [] v first = tt
  others_not_first t e rest (task ∷ tasks) (behind, v) first =
      let apart : All (λ (later : Task). task.1 ≢ later.1) tasks =
        All-map tasks (λ later h. h.0) behind in
      elim (Bool-cases (task.0 == t)) [
        | inl same ↦
            (λ h. absurd (h (ground arith)), All-map tasks (λ later h k. ground arith) apart)
        | inr other ↦ (
          λ h g. not_first t e task.1 rest tasks apart (ground arith) (sym g),
          others_not_first t e rest tasks v (ground arith),
        )
      ]

module _ (f g : ℕ → Bool) where
  Behind-agree :
      (task : Task) (tasks : List Task)
      → All (λ (later : Task). later.0 ≡ task.0 → g later.1 ≡ f later.1) tasks
      → All (Behind f task) tasks
      → All (Behind g task) tasks
  Behind-agree task [] same behind = tt
  Behind-agree task (later ∷ tasks) (h, same) ((apart, unset), behind) =
      ((apart, λ k. h k ∙ unset k), Behind-agree task tasks same behind)

  -- Another test that agrees on the events of the coroutines.
  pub Ordered-agree :
      (tasks : List Task)
      → All (λ (task : Task). g task.1 ≡ f task.1) tasks
      → Ordered f tasks
      → Ordered g tasks
  Ordered-agree [] same v = tt
  Ordered-agree (task ∷ tasks) (h, same) (behind, v) = (
    Behind-agree task tasks (All-map tasks (λ later e k. e) same) behind,
    Ordered-agree tasks same v,
  )

  -- The first event of a packet type is set.
  pub Ordered-set :
      (t e : ℕ) (rest : List ℕ) (tasks : List Task)
      → ((d : ℕ) → g d ≡ (if e == d then true else f d))
      → events_of t tasks ≡ e ∷ rest
      → Ordered f tasks
      → Ordered g tasks
  unfolding events_of
  Ordered-set t e rest [] set first v = tt
  Ordered-set t e rest (task ∷ tasks) set first (behind, v) = elim (Bool-cases (task.0 == t)) [
    | inl same ↦
        let agree : All (λ (later : Task). g later.1 ≡ f later.1) tasks =
          All-map tasks (λ later h. ground (arith, set later.1, h.0)) behind in
        (
          Behind-agree task tasks (All-map tasks (λ later h k. h) agree) behind,
          Ordered-agree tasks agree v,
        )
    | inr other ↦
        let next : events_of t tasks ≡ e ∷ rest = ground arith in
        let agree : All (λ (later : Task). later.0 ≡ task.0 → g later.1 ≡ f later.1) tasks =
          All-map tasks (λ later h k. ground (arith, set later.1, h))
            (others_not_first f t e rest tasks v next) in
        (Behind-agree task tasks agree behind, Ordered-set t e rest tasks set next v)
  ]
