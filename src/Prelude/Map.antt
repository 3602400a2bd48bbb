-- ===== src/Prelude/Map.antt =====
-- The standard library's `HashMap<u32, V>` and `HashSet<u32>`, as lists; iteration, whose order the
-- library leaves open, goes by the list.
use Prim.Native.Nat.{ℕ}
use mathlib.Core.Path.{◌≡◌, refl}
use mathlib.Core.Bool.{Bool, true, false, ◌||◌}
use mathlib.Core.List.{List, [], ◌∷◌}
use mathlib.Core.Option.{Option, none, some}
use native.Mathlib.Omega.{arith}
use wl_resprox.Prelude.Tests.{◌==◌, if◌then◌else◌}

abbrev pub Map {ℓ} : Type ℓ → Type ℓ
Map V = List (ℕ × V)

module _ {ℓ} {V : Type ℓ} where
  unfoldable pub get : ℕ → Map V → Option V
  get k [] = none
  get k ((j, v) ∷ m) = if j == k then some v else get k m

  unfoldable pub insert : ℕ → V → Map V → Map V
  insert k v [] = (k, v) ∷ []
  insert k v ((j, w) ∷ m) = if j == k then (k, v) ∷ m else (j, w) ∷ insert k v m

  unfoldable pub remove : ℕ → Map V → Map V
  remove k [] = []
  remove k ((j, w) ∷ m) = if j == k then remove k m else (j, w) ∷ remove k m

  pub get-insert :
      (k : ℕ) (v : V) (m : Map V) (j : ℕ)
      → get j (insert k v m) ≡ (if j == k then some v else get j m)
  unfolding get insert
  get-insert k v [] j = ground arith
  get-insert k v ((i, w) ∷ m) j = ground (arith, get-insert k v m j)

  pub get-remove :
      (k : ℕ) (m : Map V) (j : ℕ) → get j (remove k m) ≡ (if j == k then none else get j m)
  unfolding get remove
  get-remove k [] j = ground arith
  get-remove k ((i, w) ∷ m) j = ground (arith, get-remove k m j)

unfoldable pub contains : ℕ → List ℕ → Bool
contains a [] = false
contains a (x ∷ xs) = x == a || contains a xs

-- `HashSet::insert`.
unfoldable pub add : ℕ → List ℕ → List ℕ
unfolding contains
add a xs = if contains a xs then xs else a ∷ xs

-- `HashSet::remove`, and `Vec::retain` of what differs.
unfoldable pub discard : ℕ → List ℕ → List ℕ
discard a [] = []
discard a (x ∷ xs) = if x == a then discard a xs else x ∷ discard a xs

pub contains-add :
    (a : ℕ) (xs : List ℕ) (b : ℕ) → contains b (add a xs) ≡ (if b == a then true else contains b xs)
unfolding contains add
contains-add a xs b = ground arith

pub contains-discard :
    (a : ℕ) (xs : List ℕ) (b : ℕ)
    → contains b (discard a xs) ≡ (if b == a then false else contains b xs)
unfolding contains discard
contains-discard a [] b = ground arith
contains-discard a (x ∷ xs) b = ground (arith, contains-discard a xs b)

-- No key twice, as in every map built by `insert` and `remove`.
abbrev pub Distinct {ℓ} : {V : Type ℓ} → Map V → Type ℓ
Distinct [] = Unit
Distinct ((k, v) ∷ m) = (get k m ≡ none) × Distinct m

module _ {ℓ} {V : Type ℓ} where
  pub insert-Distinct : (k : ℕ) (v : V) (m : Map V) → Distinct m → Distinct (insert k v m)
  unfolding get insert
  insert-Distinct k v [] d = (refl, tt)
  insert-Distinct k v ((j, w) ∷ m) d = ground (arith, get-insert k v m j, insert-Distinct k v m d.1)
