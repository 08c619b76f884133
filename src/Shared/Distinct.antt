-- ===== src/Shared/Distinct.antt =====
-- Tables whose keys are distinct, as the unique indexes of prisma/schema.prisma keep them.
use wallet_conversion_engine.Prelude.{
  ◌≡◌, ◌≢◌, refl, sym, some, List, [], ◌∷◌, if◌then◌else◌, Bool-cases, inl, inr, All,
}
use wallet_conversion_engine.Shared.Table.{Eq, find, beq_refl}

module _ {K R : Type 0} ⦃e : Eq K⦄ (key : R → K) where
  unfoldable pub Distinct : List R → Type 0
  Distinct [] = Unit
  Distinct (r ∷ t) = All (λ (s : R). key s ≢ key r) t × Distinct t

  -- The row that its key finds.
  abbrev pub IsRowOf : List R → R → Type 0
  IsRowOf t r = find key (key r) t ≡ some r

  IsRowOf-cons :
      (r : R) (t rest : List R)
      → All (λ (s : R). key s ≢ key r) rest
      → All (IsRowOf t) rest
      → All (IsRowOf (r ∷ t)) rest
  unfolding find
  IsRowOf-cons r t [] others h = tt
  IsRowOf-cons r t (s ∷ rest) others h = elim (Bool-cases (e.beq (key r) (key s))) [
    | inl same ↦ absurd (others.0 (sym ((e.beq_iff (key r) (key s)).0 same)))
    | inr other ↦ (rw (other, if◌then◌else◌) h.0, IsRowOf-cons r t rest others.1 h.1)
  ]

  pub All-IsRowOf : (t : List R) → Distinct t → All (IsRowOf t) t
  unfolding find Distinct
  All-IsRowOf [] h = tt
  All-IsRowOf (r ∷ t) h =
      (rw (beq_refl key (key r), if◌then◌else◌) refl, IsRowOf-cons r t t h.0 (All-IsRowOf t h.1))
