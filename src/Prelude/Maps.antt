-- ===== src/Prelude/Maps.antt =====
-- `std::collections::HashMap` and `HashSet` as association lists: at most one entry answers for a
-- key, and an insertion replaces it. Iteration order is not observed through these operations.
use Prim.Native.Nat.{◌+◌, ◌≤◌}
use mathlib.Core.Path.{◌≡◌, refl, subst}
use mathlib.Core.Logic.{inl, inr}
use mathlib.Core.Bool.{Bool, true, false, ◌||◌}
use mathlib.Core.Option.{Option, none, some}
use mathlib.Core.List.{List, [], ◌∷◌}
use native.Mathlib.Omega.{arith}
use tls_tunnel.Prelude.Tests.{if◌then◌else◌, if_both, Bool-cases}
use tls_tunnel.Prelude.Lists.{length}
use tls_tunnel.Prelude.Equality.{Eq, ◌==◌, beq_refl}

abbrev pub Table {ℓ κ} : Type ℓ → Type κ → Type (ℓ ⊔ κ)
Table K V = List (K × V)

abbrev pub is_some {ℓ} : {A : Type ℓ} → Option A → Bool
is_some none = false
is_some (some a) = true

module _ {ℓ κ} {K : Type ℓ} {V : Type κ} ⦃e : Eq K⦄ where
  unfoldable pub lookup : K → Table K V → Option V
  lookup key ((other, value) ∷ rest) = if other == key then some value else lookup key rest
  lookup key [] = none

  unfoldable pub remove : K → Table K V → Table K V
  remove k [] = []
  remove k ((j, v) ∷ m) = let rest = remove k m in if j == k then rest else (j, v) ∷ rest

  unfoldable pub insert : K → V → Table K V → Table K V
  insert key value ((other, old) ∷ rest) =
      if other == key then (key, value) ∷ rest else (other, old) ∷ insert key value rest
  insert key value [] = (key, value) ∷ []

  abbrev pub has_key : K → Table K V → Bool
  has_key k m = is_some (lookup k m)

  pub lookup-empty : (k : K) → lookup k [] ≡ none
  unfolding lookup
  lookup-empty k = refl

  pub lookup-insert :
      (key other : K) (value : V) (table : Table K V)
      → lookup other (insert key value table)
        ≡ (if key == other then some value else lookup other table)
  unfolding lookup insert
  lookup-insert key other value ((k, old) ∷ rest) = ground (
    arith,
    lookup-insert key other value rest,
    e.same_iff key other,
    e.same_iff k key,
    e.same_iff k other,
  )
  lookup-insert key other value [] = refl

  pub lookup-remove :
      (k j : K) (m : Table K V) → lookup j (remove k m) ≡ (if k == j then none else lookup j m)
  unfolding lookup remove
  lookup-remove k j [] = ground arith
  lookup-remove k j ((i, w) ∷ m) =
      ground (arith, e.same_iff k j, e.same_iff i k, e.same_iff i j, lookup-remove k j m)

  pub lookup-insert_self : (k : K) (v : V) (m : Table K V) → lookup k (insert k v m) ≡ some v
  lookup-insert_self k v m = ground (arith, lookup-insert k k v m, beq_refl k)

  pub length-insert-le : (k : K) (v : V) (m : Table K V) → length (insert k v m) ≤ length m + 1
  unfolding insert
  length-insert-le k v [] = omega arith
  length-insert-le k v ((i, w) ∷ m) = ground (arith, length-insert-le k v m)

-- What holds of every entry of a table.
module _ {ℓ κ} {K : Type ℓ} {V : Type κ} ⦃e : Eq K⦄ (P : K → V → Type 0) where
  abbrev pub Entries : Table K V → Type 0
  Entries [] = Unit
  Entries ((k, v) ∷ m) = P k v × Entries m

  pub Entries-insert : (k : K) (v : V) (m : Table K V) → P k v → Entries m → Entries (insert k v m)
  unfolding insert
  Entries-insert k v [] p h = (p, tt)
  Entries-insert k v ((j, w) ∷ m) p h =
      if_both Entries (j == k) (p, h.1) (h.0, Entries-insert k v m p h.1)

  pub Entries-lookup : (k : K) (m : Table K V) → Entries m → (v : V) → lookup k m ≡ some v → P k v
  unfolding lookup
  Entries-lookup k [] h v found = cc
  Entries-lookup k ((j, w) ∷ m) h v found = elim (Bool-cases (j == k)) [
    | inl here ↦
        let key : j ≡ k = (e.same_iff j k).0 here in
        let is : w ≡ v = ground (arith, here, found) in subst (λ i. P i v) key (subst (P j) is h.0)
    | inr there ↦ Entries-lookup k m h.1 v (ground (arith, there, found))
  ]

module _ {ℓ} {K : Type ℓ} ⦃e : Eq K⦄ where
  -- `HashSet::contains` and `Vec::contains`
  abbrev pub contains : K → List K → Bool
  contains k [] = false
  contains k (x ∷ xs) = x == k || contains k xs

pub ruleset table_laws = (lookup-empty, lookup-insert, lookup-remove)
