-- ===== src/Prelude/Maps.antt =====
-- Collections of the standard library: `Vec::retain`, and `HashMap` as a list of keys and values, with
-- the test that its keys have for `==`. A `HashSet` is the list of its elements.
use mathlib.Core.Bool.{Bool}
use mathlib.Core.Logic.{inl, inr}
use mathlib.Core.List.{List, [], ◌∷◌}
use mathlib.Core.Option.{Option, none, some}
use rem_cmd.Prelude.Tests.{if◌then◌else◌, Bool-cases}
use rem_cmd.Prelude.Lists.{any, All}

-- `Vec::retain`.
abbrev pub retain {ℓ} : {A : Type ℓ} → (A → Bool) → List A → List A
retain keep [] = []
retain keep (x ∷ xs) = if keep x then x ∷ retain keep xs else retain keep xs

-- `Iterator::find`.
abbrev pub find {ℓ} : {A : Type ℓ} → (A → Bool) → List A → Option A
find p [] = none
find p (x ∷ xs) = if p x then some x else find p xs

-- `HashSet::insert`.
abbrev pub set_insert {ℓ} : {K : Type ℓ} → (K → K → Bool) → K → List K → List K
set_insert same k ks = if any (same k) ks then ks else k ∷ ks

-- `HashMap::get`.
abbrev pub map_get {ℓ κ} : {K : Type ℓ} {V : Type κ} → (K → K → Bool) → K → List (K × V) → Option V
map_get same k [] = none
map_get same k ((l, v) ∷ m) = if same k l then some v else map_get same k m

-- `HashMap::remove`, without its result.
abbrev pub map_remove {ℓ κ} :
    {K : Type ℓ} {V : Type κ} → (K → K → Bool) → K → List (K × V) → List (K × V)
map_remove same k [] = []
map_remove same k ((l, v) ∷ m) =
    if same k l then map_remove same k m else (l, v) ∷ map_remove same k m

-- `HashMap::insert`, which replaces the value of a key that is there.
abbrev pub map_insert {ℓ κ} :
    {K : Type ℓ} {V : Type κ} → (K → K → Bool) → K → V → List (K × V) → List (K × V)
map_insert same k v m = (k, v) ∷ map_remove same k m

module _ {ℓ κ} {A : Type ℓ} (P : A → Type κ) where
  pub All-retain : (keep : A → Bool) (xs : List A) → All P xs → All P (retain keep xs)
  All-retain keep [] h = tt
  All-retain keep (x ∷ xs) h = elim (Bool-cases (keep x)) [
    | inl kept ↦ rw kept (h.0, All-retain keep xs h.1)
    | inr gone ↦ rw gone (All-retain keep xs h.1)
  ]

module _ {ℓ κ μ} {K : Type ℓ} {V : Type κ} (P : K × V → Type μ) (same : K → K → Bool) where
  pub All-map_remove : (k : K) (m : List (K × V)) → All P m → All P (map_remove same k m)
  All-map_remove k [] h = tt
  All-map_remove k ((l, v) ∷ m) h = elim (Bool-cases (same k l)) [
    | inl gone ↦ rw gone (All-map_remove k m h.1)
    | inr kept ↦ rw kept (h.0, All-map_remove k m h.1)
  ]
