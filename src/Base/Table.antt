-- ===== src/Base/Table.antt =====
-- A database table with a primary key, as the list of its rows. `put` writes the row of its key
-- (an INSERT where there is none, else an UPDATE), `lookup` is a SELECT by key, `delete` a DELETE.
use mathlib.Core.Path.{◌≡◌, refl}
use mathlib.Core.Bool.{Bool, true}
use mathlib.Core.Option.{Option, none, some}
use mathlib.Core.List.{List, [], ◌∷◌}
use native.Mathlib.Omega.{arith}
use vex_agentscan.Base.Lists.{contains, find, any, All}
use vex_agentscan.Base.Tests.{if◌then◌else◌, Eq, ◌==◌, is_some}

module _ {ℓ κ} {R : Type ℓ} {K : Type κ} ⦃e : Eq K⦄ (key : R → K) where
  unfoldable pub lookup : K → List R → Option R
  lookup k [] = none
  lookup k (r ∷ rs) = let rest = lookup k rs in if key r == k then some r else rest

  unfoldable pub put : R → List R → List R
  put r [] = r ∷ []
  put r (q ∷ rs) = let rest = put r rs in if key q == key r then r ∷ rs else q ∷ rest

  unfoldable pub delete : K → List R → List R
  delete k [] = []
  delete k (r ∷ rs) = let rest = delete k rs in if key r == k then rest else r ∷ rest

  pub lookup-nil : (k : K) → lookup k [] ≡ none
  unfolding lookup
  lookup-nil k = refl

  pub lookup-put :
      (k : K) (r : R) (rs : List R)
      → lookup k (put r rs) ≡ (if key r == k then some r else lookup k rs)
  unfolding lookup put
  lookup-put k r [] = refl
  lookup-put k r (q ∷ rs) = ground (
    arith,
    lookup-put k r rs,
    e.beq_iff (key q) (key r),
    e.beq_iff (key q) k,
    e.beq_iff (key r) k,
  )

  pub lookup-delete :
      (j k : K) (rs : List R) → lookup j (delete k rs) ≡ (if k == j then none else lookup j rs)
  unfolding lookup delete
  lookup-delete j k [] = ground arith
  lookup-delete j k (r ∷ rs) =
      ground (arith, lookup-delete j k rs, e.beq_iff (key r) k, e.beq_iff (key r) j, e.beq_iff k j)

  -- The row that a SELECT returns has the key that was asked for.
  pub key-lookup : (k : K) (r : R) (rs : List R) → lookup k rs ≡ some r → key r ≡ k
  unfolding lookup
  key-lookup k r [] h = ground arith
  key-lookup k r (q ∷ rs) h = ground (arith, e.beq_iff (key q) k, key-lookup k r rs)

  pub delete_all : List K → List R → List R
  delete_all [] rs = rs
  delete_all (k ∷ ks) rs = delete k (delete_all ks rs)

  pub lookup-delete_all :
      (j : K) (ks : List K) (rs : List R)
      → lookup j (delete_all ks rs) ≡ (if contains ks j then none else lookup j rs)
  unfolding delete_all
  lookup-delete_all j [] rs = refl
  lookup-delete_all j (k ∷ ks) rs =
      ground (arith, lookup-delete j k (delete_all ks rs), lookup-delete_all j ks rs)

  -- The primary key is unique.
  abbrev pub IsKeyed : List R → Type ℓ
  IsKeyed [] = Unit
  IsKeyed (r ∷ rs) = (lookup (key r) rs ≡ none) × IsKeyed rs

  pub put-IsKeyed : (r : R) (rs : List R) → IsKeyed rs → IsKeyed (put r rs)
  unfolding put lookup
  put-IsKeyed r [] h = (refl, tt)
  put-IsKeyed r (q ∷ rs) h = ground (
    arith,
    put-IsKeyed r rs h.1,
    lookup-put (key q) r rs,
    e.beq_iff (key q) (key r),
    e.beq_iff (key r) (key q),
  )

  pub delete-IsKeyed : (k : K) (rs : List R) → IsKeyed rs → IsKeyed (delete k rs)
  unfolding delete
  delete-IsKeyed k [] h = tt
  delete-IsKeyed k (q ∷ rs) h = ground (arith, delete-IsKeyed k rs h.1, lookup-delete (key q) k rs)

  pub delete_all-IsKeyed : (ks : List K) (rs : List R) → IsKeyed rs → IsKeyed (delete_all ks rs)
  unfolding delete_all
  delete_all-IsKeyed [] rs h = h
  delete_all-IsKeyed (k ∷ ks) rs h = delete-IsKeyed k _ (delete_all-IsKeyed ks rs h)

  -- A row that any SELECT finds is the row of its key.
  pub lookup-find :
      (p : R → Bool) (rs : List R) (r : R)
      → IsKeyed rs
      → find p rs ≡ some r
      → lookup (key r) rs ≡ some r
  unfolding lookup
  lookup-find p [] r h f = ground arith
  lookup-find p (q ∷ rs) r h f =
      ground (arith, lookup-find p rs r h.1, e.beq_iff (key q) (key r), e.beq_iff (key r) (key r))

  pub lookup-any :
      (q : R → Bool) (k : K) (rs : List R) (r : R)
      → lookup k rs ≡ some r
      → q r ≡ true
      → any q rs ≡ true
  unfolding lookup
  lookup-any q k [] r h y = ground arith
  lookup-any q k (x ∷ rs) r h y = ground (arith, lookup-any q k rs r)

  -- What a SELECT finds after the write of a row that it selects: where it found nothing and the
  -- key was free, and where it found the row that is written over.
  pub find-put_new :
      (p : R → Bool) (rs : List R) (r : R)
      → find p rs ≡ none
      → lookup (key r) rs ≡ none
      → p r ≡ true
      → find p (put r rs) ≡ some r
  unfolding lookup put
  find-put_new p [] r f l h = ground arith
  find-put_new p (q ∷ rs) r f l h = ground (arith, find-put_new p rs r)

  pub find-put_old :
      (p : R → Bool) (rs : List R) (q r : R)
      → IsKeyed rs
      → find p rs ≡ some q
      → key q ≡ key r
      → p r ≡ true
      → find p (put r rs) ≡ some r
  unfolding put
  find-put_old p [] q r k f e h = ground arith
  find-put_old p (x ∷ rs) q r k f same h =
      ground (arith, find-put_old p rs q r k.1, lookup-find p rs q k.1, e.beq_iff (key x) (key r))

  -- Every row is found under its key.
  pub All-is_stored :
      (xs rs : List R)
      → ((k : K) → is_some (lookup k xs) ≡ true → is_some (lookup k rs) ≡ true)
      → All (λ r. is_some (lookup (key r) rs) ≡ true) xs
  unfolding lookup
  All-is_stored [] rs h = tt
  All-is_stored (x ∷ xs) rs h = (
    h (key x) (ground (arith, e.beq_iff (key x) (key x))),
    All-is_stored xs rs (λ k found. h k (ground arith)),
  )
