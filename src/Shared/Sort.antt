-- ===== src/Shared/Sort.antt =====
-- `ORDER BY created_at ASC` and `LIMIT`: rows by their age, those of one age in the order of the table.
use native.Mathlib.Nat.{le_trans}
use mathlib.Core.List.{Perm}
use mathlib.Core.List.Perm
use wallet_conversion_engine.Prelude.{
  ℕ, zero, suc, ◌≤◌, ◌≡◌, refl, ap, ◌∙◌, List, [], ◌∷◌, length, take, ltb, if◌then◌else◌, arith,
  Bool-cases, inl, inr, All,
}

module _ {R : Type 0} (age : R → ℕ) where
  unfoldable pub insert_by : R → List R → List R
  insert_by m [] = m ∷ []
  insert_by m (n ∷ t) = if ltb (age n) (age m) then n ∷ insert_by m t else m ∷ n ∷ t

  unfoldable pub sort_by : List R → List R
  sort_by [] = []
  sort_by (m ∷ t) = insert_by m (sort_by t)

  -- Oldest first.
  unfoldable pub IsSorted : List R → Type 0
  IsSorted [] = Unit
  IsSorted (m ∷ t) = All (λ (n : R). age m ≤ age n) t × IsSorted t

  module _ (P : R → Type 0) where
    pub All-insert_by : (m : R) (t : List R) → P m → All P t → All P (insert_by m t)
    unfolding insert_by
    All-insert_by m [] p h = (p, tt)
    All-insert_by m (n ∷ t) p h = elim (Bool-cases (ltb (age n) (age m))) [
      | inl older ↦ rw (older, if◌then◌else◌) (h.0, All-insert_by m t p h.1)
      | inr younger ↦ rw (younger, if◌then◌else◌) (p, h)
    ]

    pub All-sort_by : (t : List R) → All P t → All P (sort_by t)
    unfolding sort_by
    All-sort_by [] h = tt
    All-sort_by (m ∷ t) h = All-insert_by m (sort_by t) h.0 (All-sort_by t h.1)

  -- A bound of a list is a bound below it.
  All-older :
      (a b : ℕ) (t : List R) → a ≤ b → All (λ (n : R). b ≤ age n) t → All (λ (n : R). a ≤ age n) t
  All-older a b [] h all = tt
  All-older a b (m ∷ t) h all = (le_trans h all.0, All-older a b t h all.1)

  insert_by-IsSorted : (m : R) (t : List R) → IsSorted t → IsSorted (insert_by m t)
  unfolding insert_by IsSorted
  insert_by-IsSorted m [] h = (tt, tt)
  insert_by-IsSorted m (n ∷ t) h = elim (Bool-cases (ltb (age n) (age m))) [
    | inl older ↦
        rw (older, if◌then◌else◌)
          (All-insert_by (λ k. age n ≤ age k) m t (ground arith) h.0, insert_by-IsSorted m t h.1)
    | inr younger ↦
        let first : age m ≤ age n = ground arith in
        rw (younger, if◌then◌else◌) ((first, All-older (age m) (age n) t first h.0), h)
  ]

  insert_by-Perm : (m : R) (t : List R) → Perm (insert_by m t) (m ∷ t)
  unfolding insert_by
  insert_by-Perm m [] = Perm.refl _
  insert_by-Perm m (n ∷ t) = elim (Bool-cases (ltb (age n) (age m))) [
    | inl older ↦
        rw (older, if◌then◌else◌) (Perm.trans (Perm.cons n (insert_by-Perm m t)) (Perm.swap _ _ _))
    | inr younger ↦ rw (younger, if◌then◌else◌) (Perm.refl _)
  ]

  pub sort_by-IsSorted : (t : List R) → IsSorted (sort_by t)
  unfolding sort_by IsSorted
  sort_by-IsSorted [] = tt
  sort_by-IsSorted (m ∷ t) = insert_by-IsSorted m (sort_by t) (sort_by-IsSorted t)

  pub sort_by-Perm : (t : List R) → Perm (sort_by t) t
  unfolding sort_by
  sort_by-Perm [] = Perm.refl _
  sort_by-Perm (m ∷ t) = Perm.trans (insert_by-Perm m (sort_by t)) (Perm.cons m (sort_by-Perm t))

  length-insert_by : (m : R) (t : List R) → length (insert_by m t) ≡ suc (length t)
  unfolding insert_by
  length-insert_by m [] = refl
  length-insert_by m (n ∷ t) = elim (Bool-cases (ltb (age n) (age m))) [
    | inl older ↦ rw (older, if◌then◌else◌) (ap suc (length-insert_by m t))
    | inr younger ↦ rw (younger, if◌then◌else◌) refl
  ]

  pub length-sort_by : (t : List R) → length (sort_by t) ≡ length t
  unfolding sort_by
  length-sort_by [] = refl
  length-sort_by (m ∷ t) = length-insert_by m (sort_by t) ∙ ap suc (length-sort_by t)

module _ {R : Type 0} where
  pub All-take : (P : R → Type 0) (n : ℕ) (t : List R) → All P t → All P (take n t)
  All-take P zero t h = tt
  All-take P (suc n) [] h = tt
  All-take P (suc n) (m ∷ t) h = (h.0, All-take P n t h.1)
