-- ===== src/Shared/Table.antt =====
-- Tables with a unique key: the `Map` of shared/domain/asset.ts and the tables of
-- prisma/schema.prisma. A row is found by its key; `put` replaces the row of a key or adds one.
use mathlib.Core.Path.{subst}
use wallet_conversion_engine.Prelude.{
  is_some, ◌≡◌, refl, ◌↔◌, ◌≢◌, Bool, true, ◌&&◌, Option, none, some, List, [], ◌∷◌, String, str_eq,
  eq_iff, arith, if◌then◌else◌, Bool-cases, inl, inr, All,
}

pub record Eq (K : Type 0) : Type 0 where
  pub beq : K → K → Bool
  pub beq_iff : (a b : K) → (beq a b ≡ true) ↔ (a ≡ b)

instance abbrev pub string_eq : Eq String
string_eq = record { beq = str_eq; beq_iff = eq_iff }

pub pair_eq_iff : (a b : String × String) → ((str_eq a.0 b.0 && str_eq a.1 b.1) ≡ true) ↔ (a ≡ b)
pair_eq_iff a b = ground (arith, eq_iff a.0 b.0, eq_iff a.1 b.1)

instance abbrev pub pair_eq : Eq (String × String)
pair_eq = record { beq = λ a b. str_eq a.0 b.0 && str_eq a.1 b.1; beq_iff = pair_eq_iff }

module _ {K R : Type 0} ⦃e : Eq K⦄ (key : R → K) where
  -- `findUnique`, `Map.get`
  unfoldable pub find : K → List R → Option R
  find k [] = none
  find k (r ∷ t) = if e.beq (key r) k then some r else find k t

  -- `Map.has`
  abbrev pub has : K → List R → Bool
  has k t = is_some (find k t)

  -- `upsert`, `Map.set`, and the write of an UPDATE whose WHERE clause names the key
  unfoldable pub put : R → List R → List R
  put r [] = r ∷ []
  put r (s ∷ t) = if e.beq (key s) (key r) then r ∷ t else s ∷ put r t

  pub beq_refl : (k : K) → e.beq k k ≡ true
  beq_refl k = (e.beq_iff k k).1 refl

  pub find-put :
      (k : K) (r : R) (t : List R)
      → find k (put r t) ≡ (if e.beq (key r) k then some r else find k t)
  unfolding find put
  find-put k r [] = refl
  find-put k r (s ∷ t) =
      ground
        (arith, e.beq_iff (key s) (key r), e.beq_iff (key s) k, e.beq_iff (key r) k, find-put k r t)

  pub find-put_self : (r : R) (t : List R) → find (key r) (put r t) ≡ some r
  find-put_self r t = rw (find-put, beq_refl) refl

  pub find-put_ne : (k : K) (r : R) (t : List R) → key r ≢ k → find k (put r t) ≡ find k t
  find-put_ne k r t h = ground (arith, find-put k r t, e.beq_iff (key r) k)

  -- The row that is found has the key that was asked for.
  pub key-find : (k : K) {r : R} (t : List R) → find k t ≡ some r → key r ≡ k
  unfolding find
  key-find k [] h = cc
  key-find k {r} (s ∷ t) h = ground (arith, e.beq_iff (key s) k, key-find k {r = r} t)

  -- A second write of one row is as the last one alone.
  pub put-put : (r s : R) (t : List R) → key r ≡ key s → put s (put r t) ≡ put s t
  unfolding put
  put-put r s [] h = ground (arith, e.beq_iff (key r) (key s))
  put-put r s (u ∷ t) h = ground (
    arith,
    e.beq_iff (key u) (key r),
    e.beq_iff (key u) (key s),
    e.beq_iff (key r) (key s),
    put-put r s t h,
  )

  pub put-found : (r : R) (t : List R) → find (key r) t ≡ some r → put r t ≡ t
  unfolding find put
  put-found r [] h = cc
  put-found r (s ∷ t) h = ground (arith, e.beq_iff (key s) (key r), put-found r t)

  -- What holds of each row and of the written row holds of each row afterwards.
  pub All-put : (P : R → Type 0) (r : R) (t : List R) → All P t → P r → All P (put r t)
  unfolding put
  All-put P r [] h p = (p, tt)
  All-put P r (s ∷ t) h p = elim (Bool-cases (e.beq (key s) (key r))) [
    | inl same ↦ rw (same, if◌then◌else◌) (p, h.1)
    | inr other ↦ rw (other, if◌then◌else◌) (h.0, All-put P r t h.1 p)
  ]

  pub All-find : (P : R → Type 0) (k : K) {r : R} (t : List R) → All P t → find k t ≡ some r → P r
  unfolding find
  All-find P k [] h found = cc
  All-find P k {r} (s ∷ t) h found = elim (Bool-cases (e.beq (key s) k)) [
    | inl same ↦ subst P (cc same) h.0
    | inr other ↦ All-find P k t h.1 (cc other)
  ]
