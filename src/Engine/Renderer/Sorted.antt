-- ===== src/Engine/Renderer/Sorted.antt =====
-- Insertion into the pending events and flushing keep them in order of their samples.
use mathlib.Core.List.{reverse, append_assoc, append-nil, reverse-cons, reverse-reverse}
use player.Common.{
  ℕ, suc, ◌≤◌, ◌<◌, ◌≡◌, refl, sym, ap, ◌∙◌, List, [], ◌∷◌, ◌++◌, ltb, ltb→lt, if◌then◌else◌,
  length, arith, All, Bool-cases, inl, inr,
}
use player.Sequencer.Event.{Event}
use player.Engine.Renderer.{insert_back, insert, flush_from}

module _ {V : Type 0} where
  abbrev pub IsSorted : List (Event V) → Type 0
  IsSorted [] = Unit {0}
  IsSorted (e ∷ es) = All (λ x. e.sample ≤ x.sample) es × IsSorted es

  -- The same, the last event first.
  abbrev IsFalling : List (Event V) → Type 0
  IsFalling [] = Unit {0}
  IsFalling (e ∷ es) = All (λ x. x.sample ≤ e.sample) es × IsFalling es

  -- An event behind all that are not later, scanned from the front.
  unfoldable pub place : List (Event V) → Event V → List (Event V)
  place [] event = event ∷ []
  place (e ∷ es) event = if ltb event.sample e.sample then event ∷ e ∷ es else e ∷ place es event

  All-append :
      (P : Event V → Type 0) (xs ys : List (Event V)) → All P xs → All P ys → All P (xs ++ ys)
  All-append P [] ys hx hy = hy
  All-append P (x ∷ xs) ys (h, hx) hy = (h, All-append P xs ys hx hy)

  All-reverse : (P : Event V → Type 0) (xs : List (Event V)) → All P xs → All P (reverse xs)
  All-reverse P [] h = tt
  All-reverse P (x ∷ xs) (h, hx) =
      rw (reverse-cons x xs) (All-append P (reverse xs) (x ∷ []) (All-reverse P xs hx) (h, tt))

  IsFalling-snoc :
      (xs : List (Event V)) (x : Event V)
      → IsFalling xs
      → All (λ y. x.sample ≤ y.sample) xs
      → IsFalling (xs ++ x ∷ [])
  IsFalling-snoc [] x f h = (tt, tt)
  IsFalling-snoc (y ∷ xs) x (top, f) (h, hx) =
      (All-append (λ z. z.sample ≤ y.sample) xs (x ∷ []) top (h, tt), IsFalling-snoc xs x f hx)

  reverse-IsFalling : (xs : List (Event V)) → IsSorted xs → IsFalling (reverse xs)
  reverse-IsFalling [] h = tt
  reverse-IsFalling (x ∷ xs) (first, h) =
      rw (reverse-cons x xs)
        (IsFalling-snoc (reverse xs) x (reverse-IsFalling xs h) (All-reverse _ xs first))

  place_front :
      (back : List (Event V)) (event : Event V)
      → All (λ x. event.sample < x.sample) back
      → place back event ≡ event ∷ back
  unfolding place
  place_front [] event h = refl
  place_front (x ∷ back) event (lt, h) = ground arith

  place_behind :
      (front back : List (Event V)) (event : Event V)
      → All (λ x. x.sample ≤ event.sample) front
      → place (front ++ back) event ≡ front ++ place back event
  unfolding place
  place_behind [] back event h = refl
  place_behind (x ∷ front) back event (le, h) = ground (arith, place_behind front back event h)

  All-le_trans :
      (xs : List (Event V)) (m n : ℕ)
      → m ≤ n
      → All (λ x. x.sample ≤ m) xs
      → All (λ x. x.sample ≤ n) xs
  All-le_trans [] m n h a = tt
  All-le_trans (x ∷ xs) m n h (le, a) = (omega arith, All-le_trans xs m n h a)

  insert_back-place :
      (front back : List (Event V)) (event : Event V)
      → IsFalling front
      → All (λ x. event.sample < x.sample) back
      → insert_back front event back ≡ place (reverse front ++ back) event
  unfolding insert_back
  insert_back-place [] back event f h = sym (place_front back event h)
  insert_back-place (e ∷ front) back event (top, f) h =
      let split : reverse front ++ (e ∷ back) ≡ reverse (e ∷ front) ++ back =
        sym (append_assoc (reverse front) (e ∷ []) back)
        ∙ ap (λ t. t ++ back) (sym (reverse-cons e front)) in
      elim (Bool-cases (ltb event.sample e.sample)) [
        | inl lt ↦ rw lt (
            insert_back-place front (e ∷ back) event f (ltb→lt event.sample e.sample lt, h)
            ∙ ap (λ t. place t event) split)
        | inr ge ↦
            let low = All-le_trans front e.sample event.sample (ground arith) top in
            rw ge (
              sym (
                place_behind (reverse (e ∷ front)) back event
                  (All-reverse (λ x. x.sample ≤ event.sample) (e ∷ front) (ground arith, low))
                ∙ ap (◌++◌ (reverse (e ∷ front))) (place_front back event h)))
      ]

  -- The insertion from the back puts an event behind all that are not later: events at one sample
  -- keep their order of arrival.
  pub insert-place :
      (pending : List (Event V)) (event : Event V)
      → IsSorted pending
      → insert pending event ≡ place pending event
  unfolding insert
  insert-place pending event h =
      insert_back-place (reverse pending) [] event (reverse-IsFalling pending h) tt
      ∙ ap (λ t. place t event) (append-nil (reverse (reverse pending)) ∙ reverse-reverse pending)

  pub length-place :
      (es : List (Event V)) (event : Event V) → length (place es event) ≡ suc (length es)
  unfolding place
  length-place [] event = refl
  length-place (e ∷ es) event = ground (arith, length-place es event)

  All-place :
      (P : Event V → Type 0) (es : List (Event V)) (event : Event V)
      → All P es
      → P event
      → All P (place es event)
  unfolding place
  All-place P [] event h here = (here, tt)
  All-place P (e ∷ es) event (first, h) here = ground (arith, All-place P es event h here)

  All-from :
      (m n : ℕ) (es : List (Event V))
      → m ≤ n
      → All (λ x. n ≤ x.sample) es
      → All (λ x. m ≤ x.sample) es
  All-from m n [] h a = tt
  All-from m n (e ∷ es) h (first, a) = (omega arith, All-from m n es h a)

  pub place-IsSorted :
      (es : List (Event V)) (event : Event V) → IsSorted es → IsSorted (place es event)
  unfolding place
  place-IsSorted [] event h = (tt, tt)
  place-IsSorted (e ∷ es) event (first, h) = elim (Bool-cases (ltb event.sample e.sample)) [
    | inl lt ↦
        let below = ltb→lt event.sample e.sample lt in
        rw lt ((omega arith, All-from event.sample e.sample es (omega arith) first), (first, h))
    | inr ge ↦ rw ge (
      All-place (λ x. e.sample ≤ x.sample) es event first (ground arith),
      place-IsSorted es event h,
    )
  ]

  All-flush_from :
      (P : Event V → Type 0) (sample : ℕ) (es : List (Event V))
      → All P es
      → All P (flush_from sample es)
  unfolding flush_from
  All-flush_from P sample [] h = tt
  All-flush_from P sample (e ∷ es) (first, h) = ground (arith, All-flush_from P sample es h)

  pub flush_from-IsSorted :
      (sample : ℕ) (es : List (Event V)) → IsSorted es → IsSorted (flush_from sample es)
  unfolding flush_from
  flush_from-IsSorted sample [] h = tt
  flush_from-IsSorted sample (e ∷ es) (first, h) = ground (
    arith,
    flush_from-IsSorted sample es h,
    All-flush_from (λ x. e.sample ≤ x.sample) sample es first,
  )

  pub length-flush_from :
      (sample : ℕ) (es : List (Event V)) → length (flush_from sample es) ≤ length es
  unfolding flush_from
  length-flush_from sample [] = omega arith
  length-flush_from sample (e ∷ es) = ground (arith, length-flush_from sample es)
