-- ===== src/Prelude/Repeats.antt =====
-- A loop that inserts into a `HashSet` and fails on a repetition, against pairwise difference.
use mathlib.Core.Path.{◌≡◌, refl}
use mathlib.Core.Logic.{◌≢◌, ◌↔◌}
use mathlib.Core.Bool.{false}
use mathlib.Core.List.{List, [], ◌∷◌}
use native.Mathlib.Omega.{arith}
use tls_tunnel.Prelude.Lists.{All}
use tls_tunnel.Prelude.Equality.{Eq}
use tls_tunnel.Prelude.Maps.{contains}

abbrev pub Distinct {ℓ} : {A : Type ℓ} → List A → Type ℓ
Distinct [] = Unit
Distinct (x ∷ xs) = All (λ y. x ≢ y) xs × Distinct xs

module _ {ℓ} {K : Type ℓ} ⦃e : Eq K⦄ where
  -- No element repeats one before it, or one of `seen`.
  abbrev pub NewTo : List K → List K → Type ℓ
  NewTo seen [] = Unit
  NewTo seen (x ∷ xs) = (contains x seen ≡ false) × NewTo (x ∷ seen) xs

  split_seen :
      (x : K) (seen xs : List K)
      → All (λ y. contains y (x ∷ seen) ≡ false) xs
      → All (λ y. contains y seen ≡ false) xs × All (λ y. x ≢ y) xs
  split_seen x seen [] h = (tt, tt)
  split_seen x seen (y ∷ xs) h =
      let rest = split_seen x seen xs h.1 in
      ((ground arith, rest.0), (λ q. ground (arith, e.same_iff x y), rest.1))

  join_seen :
      (x : K) (seen xs : List K)
      → All (λ y. contains y seen ≡ false) xs
      → All (λ y. x ≢ y) xs
      → All (λ y. contains y (x ∷ seen) ≡ false) xs
  join_seen x seen [] h k = tt
  join_seen x seen (y ∷ xs) h k =
      (ground (arith, e.same_iff x y, h.0, k.0), join_seen x seen xs h.1 k.1)

  NewTo→Distinct :
      (seen xs : List K) → NewTo seen xs → All (λ x. contains x seen ≡ false) xs × Distinct xs
  NewTo→Distinct seen [] h = (tt, tt)
  NewTo→Distinct seen (x ∷ xs) h =
      let rest = NewTo→Distinct (x ∷ seen) xs h.1 in
      let parts = split_seen x seen xs rest.0 in ((h.0, parts.0), (parts.1, rest.1))

  Distinct→NewTo :
      (seen xs : List K) → All (λ x. contains x seen ≡ false) xs → Distinct xs → NewTo seen xs
  Distinct→NewTo seen [] h k = tt
  Distinct→NewTo seen (x ∷ xs) h k =
      (h.0, Distinct→NewTo (x ∷ seen) xs (join_seen x seen xs h.1 k.0) k.1)

  nothing_seen : (xs : List K) → All (λ x. contains x [] ≡ false) xs
  nothing_seen [] = tt
  nothing_seen (x ∷ xs) = (refl, nothing_seen xs)

  pub NewTo-iff : (xs : List K) → NewTo [] xs ↔ Distinct xs
  NewTo-iff xs = (λ h. (NewTo→Distinct [] xs h).1, λ h. Distinct→NewTo [] xs (nothing_seen xs) h)
