-- ===== src/Kube.antt =====
-- What the components share of the Kubernetes API machinery: keys of objects, errors, the result of
-- a reconcile, and the monad in which the handlers are written.
pub mod Exec
pub mod Answer
use grafana_tools.Base.{String, ℕ, Bool, true, false, Option, none, some, ◌&&◌, ◌==◌}

-- `types.NamespacedName`, `client.ObjectKey`
pub record ObjectKey : Type 0 where
  pub namespace : String
  pub name : String

abbrev pub key_eq : ObjectKey → ObjectKey → Bool
key_eq a b = a.namespace == b.namespace && a.name == b.name

-- Go's `error`, with what the code asks of one: whether `apierrors.IsNotFound` holds, and its text.
pub data Error : Type 0 where
  not_found bad_request forbidden unavailable internal failed : String → Error

unfoldable pub is_not_found : Error → Bool
is_not_found (not_found _) = true
is_not_found _ = false

-- `err.Error()`
unfoldable pub message : Error → String
message (not_found m) = m
message (bad_request m) = m
message (forbidden m) = m
message (unavailable m) = m
message (internal m) = m
message (failed m) = m

-- `client.IgnoreNotFound`
unfoldable pub ignore_not_found : Option Error → Option Error
ignore_not_found (some (not_found m)) = none
ignore_not_found e = e

-- `ctrl.Result` with the error beside it; a delay of 0 is no `RequeueAfter`.
pub record Reply : Type 0 where
  pub requeue_after : ℕ
  pub error : Option Error

abbrev pub done : Reply
done = record { requeue_after = 0; error = none }

abbrev pub failing : Error → Reply
failing e = record { requeue_after = 0; error = some e }
