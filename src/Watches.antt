-- ===== src/Watches.antt =====
-- What the controllers register with controller-runtime in SetupWithManager: the predicates by which they
-- watch objects, and the handlers that turn the change of one object into requests for others.
pub mod ServiceMonitors
pub mod Namespaces
pub mod Indexes
pub mod Settings
use grafana_tools.Base.{
  String, Bool, true, false, Option, none, some, List, [], ◌∷◌, ◌==◌, Dict, lookup, if◌then◌else◌,
}
use grafana_tools.Kube.{ObjectKey}
use grafana_tools.Kube.Exec.{Answer, yields, fails}

-- An object as the predicates read it.
pub record Object : Type 0 where
  pub key : ObjectKey
  pub labels : Dict String
  pub annotations : Dict String

abbrev pub is_value : String → Option String → Bool
is_value value none = false
is_value value (some v) = v == value

-- `v, ok := m[key]; ok && v == value`
unfoldable pub has_entry : String → String → Dict String → Bool
unfolding lookup
has_entry key value m = is_value value (lookup m key)

module _ {A : Type 0} (wanted : A → Bool) (key : A → ObjectKey) where
  -- The keys of the elements that are wanted, in their order.
  abbrev pub keys_where : List A → List ObjectKey
  keys_where [] = []
  keys_where (x ∷ xs) = if wanted x then key x ∷ keys_where xs else keys_where xs

  -- A handler that lists; where the list fails it asks for nothing.
  abbrev pub listed : Answer (List A) → List ObjectKey
  listed (fails e) = []
  listed (yields xs) = keys_where xs
