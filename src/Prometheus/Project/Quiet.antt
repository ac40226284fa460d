-- ===== src/Prometheus/Project/Quiet.antt =====
-- Finding the project of a Prometheus changes nothing.
use grafana_tools.Base.{Bool, arith}
use grafana_tools.Kube.Exec.Rules.{IsQuiet}
use grafana_tools.Detector.Prometheus.{Detector}
use grafana_tools.Prometheus.{Prometheus, Env}
use grafana_tools.Prometheus.Project.{context_of, scope_of}

module _ (env : Env) (p : Prometheus) where
  pub context_of-IsQuiet : (is_default : Bool) → IsQuiet (context_of env p is_default)
  unfolding context_of
  context_of-IsQuiet is_default t = ground arith

  pub scope_of-IsQuiet : (d : Detector) (is_default : Bool) → IsQuiet (scope_of env d p is_default)
  unfolding scope_of
  scope_of-IsQuiet d is_default t = ground arith
