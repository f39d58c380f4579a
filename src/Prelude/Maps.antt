-- ===== src/Prelude/Maps.antt =====
-- The `Map` of JavaScript with text keys: an association list in insertion order. `insert` is
-- `map.set` (a present key keeps its place), `erase` is `map.delete`, and the entries of a map
-- that these operations build have distinct keys (`Unique`). The immutable-map helpers of
-- packages/gateway/src/utils/immutable-map.ts are the same three operations on a copy.
use Prim.Native.Nat.{ℕ, suc, ◌+◌, ◌≤◌}
use Prim.Native.String.{String}
use mathlib.Core.Bool.{Bool, true, false, not}
use mathlib.Core.List.{List, [], ◌∷◌, ◌++◌, map}
use mathlib.Core.Logic.{◌≢◌, inl, inr}
use mathlib.Core.Option.{Option, none, some}
use mathlib.Core.Path.{◌≡◌, refl, sym, ap, subst, ◌∙◌}
use native.Mathlib.Omega.{arith}
use text.Mathlib.Text.{◌==◌, ◌==◌ as str_eq}
use text.Mathlib.TextEquality.{eq_iff}
use text.Mathlib.TextPositions.{eq_refl}
use templar.Prelude.Tests.{if◌then◌else◌, Bool-cases}
use templar.Prelude.Lists.{length, keep, All}

abbrev pub Map {ℓ} : Type ℓ → Type ℓ
Map V = List (String × V)

module _ {ℓ} {V : Type ℓ} where
  unfoldable pub lookup : String → Map V → Option V
  lookup k [] = none
  lookup k ((j, v) ∷ m) = if j == k then some v else lookup k m

  unfoldable pub has : String → Map V → Bool
  has k [] = false
  has k ((j, v) ∷ m) = if j == k then true else has k m

  unfoldable pub insert : String → V → Map V → Map V
  insert k v [] = (k, v) ∷ []
  insert k v ((j, w) ∷ m) = if j == k then (j, v) ∷ m else (j, w) ∷ insert k v m

  unfoldable pub erase : String → Map V → Map V
  erase k [] = []
  erase k ((j, w) ∷ m) = if j == k then erase k m else (j, w) ∷ erase k m

  unfoldable pub map_filter : (String → V → Bool) → Map V → Map V
  map_filter p [] = []
  map_filter p ((j, w) ∷ m) = if p j w then (j, w) ∷ map_filter p m else map_filter p m

  abbrev pub size : Map V → ℕ
  size m = length m

  unfoldable pub values : Map V → List V
  values = map (λ e. e.1)

  unfoldable pub Unique : Map V → Type ℓ
  Unique [] = Unit
  Unique ((j, w) ∷ m) = (lookup j m ≡ none) × Unique m

module _ {ℓ} {V : Type ℓ} where
  lookup-append_self : (k : String) (v : V) (m n : Map V) → lookup k (m ++ (k, v) ∷ n) ≢ none
  unfolding lookup
  lookup-append_self k v [] n = λ e. ground (arith, eq_refl k)
  lookup-append_self k v ((j, w) ∷ m) n = ground (arith, lookup-append_self k v m n)

  pub lookup-insert :
      (key read : String) (new : V) (m : Map V)
      → lookup read (insert key new m) ≡ (if key == read then some new else lookup read m)
  unfolding insert lookup
  lookup-insert key read new [] = refl
  lookup-insert key read new ((first, old) ∷ rest) =
      ground (
        arith,
        lookup-insert key read new rest,
        eq_iff first read,
        eq_iff first key,
        eq_iff key read,
      )

  pub lookup-erase :
      (k j : String) (m : Map V) → lookup j (erase k m) ≡ (if k == j then none else lookup j m)
  unfolding lookup erase
  lookup-erase k j [] = ground arith
  lookup-erase k j ((i, w) ∷ m) =
      ground (arith, eq_iff k j, eq_iff i k, eq_iff i j, lookup-erase k j m)

  pub lookup-insert_self : (k : String) (v : V) (m : Map V) → lookup k (insert k v m) ≡ some v
  lookup-insert_self k v m = simp (lookup-insert, eq_refl)

  pub lookup-erase_self : (k : String) (m : Map V) → lookup k (erase k m) ≡ none
  lookup-erase_self k m = simp (lookup-erase, eq_refl)

  pub lookup-insert_ne :
      (k j : String) (v : V) (m : Map V) → k ≢ j → lookup j (insert k v m) ≡ lookup j m
  lookup-insert_ne k j v m h = ground (arith, lookup-insert k j v m, eq_iff k j)

  pub lookup-erase_ne : (k j : String) (m : Map V) → k ≢ j → lookup j (erase k m) ≡ lookup j m
  lookup-erase_ne k j m h = ground (arith, lookup-erase k j m, eq_iff k j)

  -- `has` is the test of `lookup`.
  pub has-lookup :
      (k : String) (m : Map V) → has k m ≡ elim (lookup k m) [ none ↦ false | some _ ↦ true ]
  unfolding has lookup
  has-lookup k [] = refl
  has-lookup k ((j, v) ∷ m) = ground (arith, has-lookup k m)

  pub erase_absent : (k : String) (m : Map V) → lookup k m ≡ none → erase k m ≡ m
  unfolding lookup erase
  erase_absent k [] h = refl
  erase_absent k ((j, w) ∷ m) h = ground (arith, erase_absent k m)

  pub size-insert :
      (k : String) (v : V) (m : Map V)
      → size (insert k v m) ≡ elim (lookup k m) [ none ↦ size m + 1 | some _ ↦ size m ]
  unfolding insert lookup
  size-insert k v [] = omega arith
  size-insert k v ((j, w) ∷ m) = ground (arith, size-insert k v m)

  pub size-insert-le : (k : String) (v : V) (m : Map V) → size (insert k v m) ≤ size m + 1
  unfolding insert
  size-insert-le k v [] = omega arith
  size-insert-le k v ((j, w) ∷ m) = ground (arith, size-insert-le k v m)

  pub insert-ne-nil : (k : String) (v : V) (m : Map V) → insert k v m ≢ []
  unfolding insert
  insert-ne-nil k v [] = λ e. cc
  insert-ne-nil k v ((j, w) ∷ m) = ground arith

  pub size-erase-le : (k : String) (m : Map V) → size (erase k m) ≤ size m
  unfolding erase
  size-erase-le k [] = omega arith
  size-erase-le k ((j, w) ∷ m) = ground (arith, size-erase-le k m)

  pub size-erase :
      (k : String) (v : V) (m : Map V)
      → Unique m
      → lookup k m ≡ some v
      → size (erase k m) + 1 ≡ size m
  unfolding erase lookup Unique
  size-erase k v [] u h = ground arith
  size-erase k v ((j, w) ∷ m) u h =
      ground (arith, eq_iff j k, size-erase k v m u.1, erase_absent k m)

  pub insert-Unique : (k : String) (v : V) (m : Map V) → Unique m → Unique (insert k v m)
  unfolding insert Unique lookup
  insert-Unique k v [] u = (refl, tt)
  insert-Unique k v ((j, w) ∷ m) u =
      ground (arith, eq_iff k j, eq_iff j k, lookup-insert k j v m, insert-Unique k v m u.1)

  pub erase-Unique : (k : String) (m : Map V) → Unique m → Unique (erase k m)
  unfolding erase Unique
  erase-Unique k [] u = u
  erase-Unique k ((j, w) ∷ m) u =
      ground (arith, lookup-erase k j m, eq_iff k j, erase-Unique k m u.1)

  pub size-map_filter-le : (p : String → V → Bool) (m : Map V) → size (map_filter p m) ≤ size m
  unfolding map_filter
  size-map_filter-le p [] = omega arith
  size-map_filter-le p ((j, w) ∷ m) = ground (arith, size-map_filter-le p m)

  map_filter_absent :
      (p : String → V → Bool) (k : String) (m : Map V)
      → lookup k m ≡ none
      → lookup k (map_filter p m) ≡ none
  unfolding lookup map_filter
  map_filter_absent p k [] h = refl
  map_filter_absent p k ((j, w) ∷ m) h = ground (arith, map_filter_absent p k m)

  pub map_filter-Unique : (p : String → V → Bool) (m : Map V) → Unique m → Unique (map_filter p m)
  unfolding map_filter Unique
  map_filter-Unique p [] u = u
  map_filter-Unique p ((j, w) ∷ m) u =
      ground (arith, map_filter_absent p j m, map_filter-Unique p m u.1)

  -- A filtered map has the entries of the map that pass the test.
  pub lookup-map_filter :
      (p : String → V → Bool) (k : String) (m : Map V)
      → Unique m
      → lookup k (map_filter p m)
        ≡ elim (lookup k m) [ none ↦ none | some v ↦ if p k v then some v else none ]
  unfolding lookup map_filter Unique
  lookup-map_filter p k [] u = refl
  lookup-map_filter p k ((j, w) ∷ m) u =
      ground (arith, eq_iff j k, lookup-map_filter p k m u.1, map_filter_absent p j m)

  -- What holds of all that can be looked up holds of all entries.
  pub All-of_lookup {κ} :
      (P : String → V → Type κ) (m : Map V)
      → Unique m
      → ((k : String) (v : V) → lookup k m ≡ some v → P k v)
      → All (λ e. P e.0 e.1) m
  unfolding lookup Unique
  All-of_lookup P [] u h = tt
  All-of_lookup P ((j, w) ∷ m) u h = (
    h j w (rw (eq_refl j)),
    All-of_lookup P m u.1 (λ k v e. h k v (elim (Bool-cases (str_eq j k)) [
      | inl same ↦
          let ej : j ≡ k = (eq_iff j k).0 same in
          let clash : ◌≡◌ {A = Option V} none (some v) = sym u.0 ∙ ap (λ i. lookup i m) ej ∙ e in cc
      | inr other ↦ rw other e
    ])),
  )

  abbrev pub Holds {κ} : (String → V → Type κ) → String → Option V → Type κ
  Holds P k none = Unit
  Holds P k (some v) = P k v

  -- What holds of each key and the value that it leads to.
  abbrev pub Each {κ} : (String → V → Type κ) → Map V → Type κ
  Each P m = (k : String) → Holds P k (lookup k m)

  pub Each-of_lookup {κ} :
      (P : String → V → Type κ) (m : Map V)
      → ((k : String) (v : V) → lookup k m ≡ some v → P k v)
      → Each P m
  Each-of_lookup P m h k = go (lookup k m) refl
    where
      go : (o : Option V) → lookup k m ≡ o → Holds P k o
      go none e = tt
      go (some v) e = h k v e

  pub Each-lookup {κ} :
      (P : String → V → Type κ) (m : Map V)
      → Each P m
      → (k : String) (v : V) → lookup k m ≡ some v
      → P k v
  Each-lookup P m h k v e = subst (Holds P k) e (h k)

  -- A new key goes to the end.
  pub insert_absent :
      (k : String) (v : V) (m : Map V) → lookup k m ≡ none → insert k v m ≡ m ++ (k, v) ∷ []
  unfolding lookup insert
  insert_absent k v [] h = refl
  insert_absent k v ((j, w) ∷ m) h = ground (arith, insert_absent k v m)

  pub lookup-append_absent :
      (k : String) (v : V) (m n : Map V) → Unique (m ++ (k, v) ∷ n) → lookup k m ≡ none
  unfolding lookup Unique
  lookup-append_absent k v [] n u = refl
  lookup-append_absent k v ((j, w) ∷ m) n u =
      ground (arith, lookup-append_absent k v m n u.1, eq_iff j k, lookup-append_self k v m n)

  abbrev pub keys : Map V → List String
  keys = map (λ e. e.0)

  -- A filter of the keys that agrees with a filter of the entries.
  pub keys-map_filter :
      (q : String → Bool) (p : String → V → Bool) (m : Map V)
      → All (λ e. q e.0 ≡ p e.0 e.1) m
      → keep q (keys m) ≡ keys (map_filter p m)
  unfolding map_filter
  keys-map_filter q p [] h = refl
  keys-map_filter q p ((j, w) ∷ m) h = ground (arith, h.0, keys-map_filter q p m h.1)

  pub keys-erase :
      (k : String) (m : Map V) → keep (λ j. not (str_eq j k)) (keys m) ≡ keys (erase k m)
  unfolding erase
  keys-erase k [] = refl
  keys-erase k ((j, w) ∷ m) = ground (arith, keys-erase k m)

  pub length-keys : (m : Map V) → length (keys m) ≡ size m
  length-keys [] = refl
  length-keys (e ∷ m) = ap suc (length-keys m)
