-- ===== src/Bridge/Counts/Entries.antt =====
-- The entries of the peers, over an admission and a release.
use player.Common.{
  ℕ, suc, ◌-◌, ◌<◌, ◌≡◌, refl, sym, ap, ◌∙◌, inl, inr, true, false, Bool-cases, List, [], ◌∷◌, ◌==◌,
  if◌then◌else◌, arith,
}
use player.Bridge.Counts.{IpAddr, last_of, all_but_last, refill, of, raise, lower}

-- The equality test of addresses is one.
pub record IsEquality (ip : IpAddr) : Type 0 where
  pub reflexive : (a : ip.Addr) → ip.same a a ≡ true
  pub sound : (a b : ip.Addr) → ip.same a b ≡ true → a ≡ b

module _ (ip : IpAddr) (law : IsEquality ip) where
  open ip use {Addr, same, is_loopback}

  -- Every entry has a connection, and no address has two entries.
  abbrev pub IsTable : List (Addr × ℕ) → Type 0
  IsTable [] = Unit {0}
  IsTable ((p, n) ∷ xs) = (0 < n) × (of ip p xs ≡ 0) × IsTable xs

  apart : (r p q : Addr) → same r p ≡ false → same r q ≡ true → same p q ≡ false
  apart r p q e f = elim (Bool-cases (same p q)) [
    | inl g ↦
        let at : same r p ≡ true = rw (law.sound r q f, law.sound p q g) (law.reflexive q) in
        ground (arith, e, at)
    | inr g ↦ g
  ]

  pub of-raise :
      (p q : Addr) (xs : List (Addr × ℕ))
      → of ip q (raise ip p xs) ≡ (if same p q then suc (of ip q xs) else of ip q xs)
  unfolding raise of
  of-raise p q [] = refl
  of-raise p q ((r, n) ∷ xs) = elim (Bool-cases (same r p)) [
    | inl e ↦ elim (Bool-cases (same p q)) [
      | inl f ↦ rw (law.sound r p e, law.reflexive p, f) (omega arith)
      | inr f ↦ rw (law.sound r p e, law.reflexive p, f) refl
    ]
    | inr e ↦ elim (Bool-cases (same r q)) [
      | inl f ↦ rw (e, f, apart r p q e f) refl
      | inr f ↦ rw (e, f) (of-raise p q xs)
    ]
  ]

  pub raise-IsTable : (p : Addr) (xs : List (Addr × ℕ)) → IsTable xs → IsTable (raise ip p xs)
  unfolding raise of
  raise-IsTable p [] h = (omega arith, refl, tt)
  raise-IsTable p ((r, n) ∷ xs) (some_open, alone, h) = elim (Bool-cases (same r p)) [
    | inl e ↦ rw e (omega arith, alone, h)
    | inr e ↦
        let other : same p r ≡ false = elim (Bool-cases (same p r)) [
          | inl f ↦ ground (arith, e, ap (same r) (law.sound p r f), law.reflexive r)
          | inr f ↦ f
        ] in
        rw e (some_open, (rw (of-raise p r xs, other) alone), raise-IsTable p xs h)
  ]

  -- The last entry moved to the front.
  abbrev rotated : (Addr × ℕ) → List (Addr × ℕ) → List (Addr × ℕ)
  rotated x xs = last_of x xs ∷ all_but_last x xs

  last-open : (x : Addr × ℕ) (xs : List (Addr × ℕ)) → IsTable (x ∷ xs) → 0 < (last_of x xs).1
  unfolding last_of
  last-open x [] h = h.0
  last-open x (y ∷ xs) h = last-open y xs h.2

  -- The rotated list counts as before.
  of-rotated :
      (q : Addr) (x : Addr × ℕ) (xs : List (Addr × ℕ))
      → IsTable (x ∷ xs)
      → of ip q (rotated x xs) ≡ of ip q (x ∷ xs)
  unfolding last_of all_but_last of
  of-rotated q x [] h = refl
  of-rotated q x (y ∷ xs) (some_open, alone, h) =
      let l = last_of y xs in
      let same_count = of-rotated q y xs h in
      elim (Bool-cases (same l.0 q)) [
        | inl e ↦
            let count : l.1 ≡ of ip q (y ∷ xs) = sym (rw e refl) ∙ same_count in
            elim (Bool-cases (same x.0 q)) [
              | inl f ↦
                  let zero_count : of ip q (y ∷ xs) ≡ 0 =
                    ap (λ a. of ip a (y ∷ xs)) (sym (law.sound x.0 q f)) ∙ alone in
                  absurd (omega (arith, count, zero_count, last-open y xs h))
              | inr f ↦ rw (e, f) count
            ]
        | inr e ↦
            let count : of ip q (all_but_last y xs) ≡ of ip q (y ∷ xs) =
              sym (rw e refl) ∙ same_count in
            elim (Bool-cases (same x.0 q)) [ inl f ↦ rw (e, f) refl | inr f ↦ rw (e, f) count ]
      ]

  alone-absent :
      (l : Addr × ℕ) (a : Addr) (xs : List (Addr × ℕ))
      → 0 < l.1
      → of ip a (l ∷ xs) ≡ 0
      → (same l.0 a ≡ false) × (of ip a xs ≡ 0)
  unfolding of
  alone-absent l a xs some_open h = elim (Bool-cases (same l.0 a)) [
    | inl e ↦ let count : l.1 ≡ 0 = sym (rw e refl) ∙ h in absurd (omega (arith, count, some_open))
    | inr e ↦ (e, sym (rw e refl) ∙ h)
  ]

  same-sym : (a b : Addr) → same a b ≡ false → same b a ≡ false
  same-sym a b e = elim (Bool-cases (same b a)) [
    | inl f ↦ ground (arith, e, ap (same a) (law.sound b a f), law.reflexive a)
    | inr f ↦ f
  ]

  rotated-IsTable :
      (x : Addr × ℕ) (xs : List (Addr × ℕ)) → IsTable (x ∷ xs) → IsTable (rotated x xs)
  unfolding last_of all_but_last of
  rotated-IsTable x [] h = h
  rotated-IsTable x (y ∷ xs) (some_open, alone, h) =
      let l = last_of y xs in
      let (last_open, last_alone, rest) = rotated-IsTable y xs h in
      let (other, absent) =
        alone-absent l x.0 (all_but_last y xs) last_open (of-rotated x.0 y xs h ∙ alone) in
      (last_open, rw (same-sym l.0 x.0 other) last_alone, (some_open, absent, rest))

  refill-IsTable : (xs : List (Addr × ℕ)) → IsTable xs → IsTable (refill xs)
  unfolding refill
  refill-IsTable [] h = h
  refill-IsTable (x ∷ xs) h = rotated-IsTable x xs h

  of-refill : (q : Addr) (xs : List (Addr × ℕ)) → IsTable xs → of ip q (refill xs) ≡ of ip q xs
  unfolding refill
  of-refill q [] h = refl
  of-refill q (x ∷ xs) h = of-rotated q x xs h

  pub of-lower :
      (p q : Addr) (xs : List (Addr × ℕ))
      → IsTable xs
      → of ip q (lower ip p xs) ≡ (if same p q then of ip q xs - 1 else of ip q xs)
  unfolding lower of
  of-lower p q [] h = elim (Bool-cases (same p q)) [ inl e ↦ rw e refl | inr e ↦ rw e refl ]
  of-lower p q ((r, n) ∷ xs) (some_open, alone, h) = elim (Bool-cases (same r p)) [
    | inl e ↦
        let at : r ≡ p = law.sound r p e in
        let gone : of ip p xs ≡ 0 = ap (λ a. of ip a xs) (sym at) ∙ alone in
        elim (Bool-cases (n - 1 == 0)) [
          | inl last ↦ elim (Bool-cases (same p q)) [
            | inl f ↦
                let none_left : of ip q xs ≡ 0 =
                  ap (λ a. of ip a xs) (sym (law.sound p q f)) ∙ gone in
                rw (at, law.reflexive p, last, f)
                  (of-refill q xs h ∙ none_left ∙ ground (arith, last))
            | inr f ↦ rw (at, law.reflexive p, last, f) (of-refill q xs h)
          ]
          | inr more ↦ elim (Bool-cases (same p q)) [
            | inl f ↦ rw (at, law.reflexive p, more, f) refl
            | inr f ↦ rw (at, law.reflexive p, more, f) refl
          ]
        ]
    | inr e ↦ elim (Bool-cases (same r q)) [
      | inl f ↦ rw (e, f, apart r p q e f) refl
      | inr f ↦ rw (e, f) (of-lower p q xs h)
    ]
  ]

  pub lower-IsTable : (p : Addr) (xs : List (Addr × ℕ)) → IsTable xs → IsTable (lower ip p xs)
  unfolding lower of
  lower-IsTable p [] h = h
  lower-IsTable p ((r, n) ∷ xs) (some_open, alone, h) = elim (Bool-cases (same r p)) [
    | inl e ↦ elim (Bool-cases (n - 1 == 0)) [
      | inl last ↦ rw (e, last) (refill-IsTable xs h)
      | inr more ↦ rw (e, more) ((ground (arith, more)), alone, h)
    ]
    | inr e ↦
        rw e (some_open, (of-lower p r xs h ∙ rw (same-sym r p e) alone), lower-IsTable p xs h)
  ]
