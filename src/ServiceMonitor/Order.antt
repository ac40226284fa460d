-- ===== src/ServiceMonitor/Order.antt =====
-- The order in which both reconcilers go through the Prometheus objects, by `sort.Slice`: by namespace, and
-- within one by name.
use Prim.Native.String.{compare}
use text.Mathlib.Text.{is_lt}
use grafana_tools.Base.{String, Bool, not, List, [], ◌∷◌, ◌==◌, if◌then◌else◌}
use grafana_tools.Kube.{ObjectKey}

abbrev pub text_lt : String → String → Bool
text_lt s t = is_lt (compare s t)

unfoldable pub is_before : ObjectKey → ObjectKey → Bool
is_before a b =
    if not (a.namespace == b.namespace)
    then text_lt a.namespace b.namespace
    else text_lt a.name b.name

module _ {A : Type 0} (key : A → ObjectKey) where
  unfoldable pub insert : A → List A → List A
  unfolding is_before
  insert p [] = p ∷ []
  insert p (q ∷ qs) = if is_before (key q) (key p) then q ∷ insert p qs else p ∷ q ∷ qs

  unfoldable pub sorted : List A → List A
  unfolding insert
  sorted [] = []
  sorted (p ∷ ps) = insert p (sorted ps)
