-- ===== src/Base/Maps.antt =====
-- Go's `map[string]V` as an association list: the first entry of a key is its value. The program
-- depends on the order of a map's entries only where a component says so.
use Prim.Native.String.{String}
use mathlib.Core.Option.{Option, none, some}
use mathlib.Core.List.{List, [], ◌∷◌}
use mathlib.Core.Path.{◌≡◌, refl, ap}
use mathlib.Core.Logic.{inl, inr}
use mathlib.Core.Bool.{false}
use native.Mathlib.Omega.{arith}
use text.Mathlib.Text.{◌==◌}
use text.Mathlib.TextEquality.{eq_iff}
use grafana_tools.Base.Tests.{if◌then◌else◌, Bool-cases}

abbrev pub Dict {ℓ} : Type ℓ → Type ℓ
Dict V = List (String × V)

-- `v, ok := m[key]`
unfoldable pub lookup {ℓ} : {V : Type ℓ} → Dict V → String → Option V
lookup [] key = none
lookup ((other, value) ∷ rest) key = if key == other then some value else lookup rest key

-- `m[k]` of a map of texts: the empty text for a missing key.
abbrev pub or_empty : Option String → String
or_empty none = ""
or_empty (some v) = v

unfoldable pub index : Dict String → String → String
unfolding lookup
index m key = or_empty (lookup m key)

-- `m[key] = value`
abbrev pub assign : String → String → Dict String → Dict String
assign key value [] = (key, value) ∷ []
assign key value ((k, v) ∷ m) = if key == k then (key, value) ∷ m else (k, v) ∷ assign key value m

pub lookup-assign : (k v : String) (m : Dict String) → lookup (assign k v m) k ≡ some v
unfolding lookup
lookup-assign k v [] = ground (arith, eq_iff k k)
lookup-assign k v ((a, b) ∷ m) = elim (Bool-cases (k == a)) [
  | inl e ↦ rw e (ground (arith, eq_iff k k))
  | inr e ↦ rw (e, e) (lookup-assign k v m)
]

pub lookup-assign_other :
    (k k' v : String) (m : Dict String) → (k' == k) ≡ false → lookup (assign k v m) k' ≡ lookup m k'
unfolding lookup
lookup-assign_other k k' v [] h = rw h
lookup-assign_other k k' v ((a, b) ∷ m) h = elim (Bool-cases (k == a)) [
  | inl e ↦ ground (arith, e, eq_iff k a, h, eq_iff k' k, eq_iff k' a)
  | inr e ↦ rw e (ground (arith, lookup-assign_other k k' v m h))
]

pub assign-same : (k v : String) (m : Dict String) → lookup m k ≡ some v → assign k v m ≡ m
unfolding lookup
assign-same k v [] h = ground arith
assign-same k v ((a, b) ∷ m) h = elim (Bool-cases (k == a)) [
  | inl e ↦ ground (arith, e, h, eq_iff k a)
  | inr e ↦ rw e (ap (◌∷◌ (a, b)) (assign-same k v m (ground (arith, e, h))))
]

pub index-assign : (k v : String) (m : Dict String) → index (assign k v m) k ≡ v
unfolding index
index-assign k v m = ap or_empty (lookup-assign k v m)

pub index-assign_other :
    (k k' v : String) (m : Dict String) → (k' == k) ≡ false → index (assign k v m) k' ≡ index m k'
unfolding index
index-assign_other k k' v m h = ap or_empty (lookup-assign_other k k' v m h)

-- `delete(m, key)`
abbrev pub erase : String → Dict String → Dict String
erase key [] = []
erase key ((k, v) ∷ m) = if key == k then erase key m else (k, v) ∷ erase key m

pub lookup-erase_other :
    (k k' : String) (m : Dict String) → (k' == k) ≡ false → lookup (erase k m) k' ≡ lookup m k'
unfolding lookup
lookup-erase_other k k' [] h = refl
lookup-erase_other k k' ((a, b) ∷ m) h = elim (Bool-cases (k == a)) [
  | inl e ↦ ground (arith, e, eq_iff k a, h, eq_iff k' k, eq_iff k' a, lookup-erase_other k k' m h)
  | inr e ↦ rw e (ground (arith, lookup-erase_other k k' m h))
]

pub index-erase_other :
    (k k' : String) (m : Dict String) → (k' == k) ≡ false → index (erase k m) k' ≡ index m k'
unfolding index
index-erase_other k k' m h = ap or_empty (lookup-erase_other k k' m h)
