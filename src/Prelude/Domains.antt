-- ===== src/Prelude/Domains.antt =====
-- The keys of a map, as the test `has`, under the operations.
use Prim.Native.String.{String}
use mathlib.Core.Bool.{Bool, true, false, not, ◌&&◌, ◌||◌}
use mathlib.Core.Option.{Option, none, some}
use mathlib.Core.Path.{◌≡◌, sym, subst, ◌∙◌}
use mathlib.Core.Logic.{inl, inr}
use native.Mathlib.Omega.{arith}
use text.Mathlib.Text.{◌==◌ as str_eq}
use text.Mathlib.TextEquality.{eq_iff}
use templar.Prelude.Tests.{Option-cases, Bool-cases, if◌then◌else◌}
use templar.Prelude.Maps.{
  Map, lookup, has, insert, erase, has-lookup, lookup-insert, lookup-erase, map_filter,
  lookup-map_filter, Unique, Each, Holds,
}

module _ {ℓ} {V : Type ℓ} where
  pub has-insert :
      (k j : String) (v : V) (m : Map V) → has j (insert k v m) ≡ (str_eq k j || has j m)
  has-insert k j v m =
      ground (arith, has-lookup j (insert k v m), has-lookup j m, lookup-insert k j v m)

  pub has-erase : (k j : String) (m : Map V) → has j (erase k m) ≡ (not (str_eq k j) && has j m)
  has-erase k j m = ground (arith, has-lookup j (erase k m), has-lookup j m, lookup-erase k j m)

  -- A new value for a key that is there changes no keys.
  pub has-insert_present :
      (k j : String) (v : V) (m : Map V) → has k m ≡ true → has j (insert k v m) ≡ has j m
  has-insert_present k j v m h = ground (arith, has-insert k j v m, eq_iff k j)

  pub has-some : (k : String) (v : V) (m : Map V) → lookup k m ≡ some v → has k m ≡ true
  has-some k v m h = ground (arith, has-lookup k m)

  pub has-found : (k : String) (m : Map V) → has k m ≡ true → (v : V) × (lookup k m ≡ some v)
  has-found k m h = elim (Option-cases (lookup k m)) [
    | inl e ↦ ground (arith, has-lookup k m)
    | inr found ↦ found
  ]

module _ {ℓ κ} {V : Type ℓ} (P : String → V → Type κ) where
  pub Each-insert : (k : String) (v : V) (m : Map V) → P k v → Each P m → Each P (insert k v m)
  Each-insert k v m new old j = elim (Bool-cases (str_eq k j)) [
    | inl same ↦
        subst (Holds P j) (sym (lookup-insert k j v m ∙ chosen same))
          (subst (λ i. P i v) ((eq_iff k j).0 same) new)
    | inr other ↦ subst (Holds P j) (sym (lookup-insert k j v m ∙ kept other)) (old j)
  ]
    where
      chosen : str_eq k j ≡ true → (if str_eq k j then some v else lookup j m) ≡ some v
      chosen e = rw e

      kept : str_eq k j ≡ false → (if str_eq k j then some v else lookup j m) ≡ lookup j m
      kept e = rw e

  pub Each-erase : (k : String) (m : Map V) → Each P m → Each P (erase k m)
  Each-erase k m old j = elim (Bool-cases (str_eq k j)) [
    | inl same ↦ subst (Holds P j) (sym (lookup-erase k j m ∙ gone same)) tt
    | inr other ↦ subst (Holds P j) (sym (lookup-erase k j m ∙ kept other)) (old j)
  ]
    where
      gone : str_eq k j ≡ true → (if str_eq k j then none else lookup j m) ≡ none
      gone e = rw e

      kept : str_eq k j ≡ false → (if str_eq k j then none else lookup j m) ≡ lookup j m
      kept e = rw e

  -- What holds of the entries that pass the test holds of the filtered map.
  pub Each-map_filter {ρ} :
      (Q : String → V → Type ρ) (p : String → V → Bool) (m : Map V)
      → Unique m
      → ((k : String) (v : V) → p k v ≡ true → P k v → Q k v)
      → Each P m
      → Each Q (map_filter p m)
  Each-map_filter Q p m u f old j =
      subst (Holds Q j) (sym (lookup-map_filter p j m u)) (passes (lookup j m) (old j))
    where
      passes :
          (o : Option V)
          → Holds P j o
          → Holds Q j (elim o [ none ↦ none | some v ↦ if p j v then some v else none ])
      passes none h = tt
      passes (some v) h = elim (Bool-cases (p j v)) [
        | inl passed ↦ rw passed (f j v passed h)
        | inr failed ↦ rw failed tt
      ]

  pub Each-map {ρ} :
      (Q : String → V → Type ρ) (m : Map V)
      → ((k : String) (v : V) → P k v → Q k v)
      → Each P m
      → Each Q m
  Each-map Q m f old j = holds (lookup j m) (old j)
    where
      holds : (o : Option V) → Holds P j o → Holds Q j o
      holds none h = tt
      holds (some v) h = f j v h
