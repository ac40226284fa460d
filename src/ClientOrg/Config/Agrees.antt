-- ===== src/ClientOrg/Config/Agrees.antt =====
-- The configuration for client organizations beside that of the Prometheus itself.
use grafana_tools.Base.{String, Bool, true, false, List, Dict, ◌≡◌, refl, index, ◌==◌}
use grafana_tools.Kube.{ObjectKey}
use grafana_tools.Kube.Exec.{Answer, yields, fails, Outcome, ok, err, panic, outcome, continue}
use grafana_tools.Kube.Answer
use grafana_tools.Detector.Prometheus.{openshift_managed, service}
use grafana_tools.Prometheus.{Config, Service, Env, Event}
use grafana_tools.Prometheus.Setup.{trickster, trickster_role, config_of, Credentials, bearer_of}
use grafana_tools.Rancher.{Secret}
use grafana_tools.ClientOrg.Config.{World, build_config, in_namespace, config_for}

abbrev pub without_credentials : Config → Config
without_credentials cfg = record cfg { bearer_token = ""; ca = "" }

-- The configuration of a Prometheus, with the credentials only on OpenShift.
abbrev pub withheld : Bool → Outcome Config → Outcome Config
withheld true o = o
withheld false (ok cfg) = ok (without_credentials cfg)
withheld false (err e) = err e
withheld false (panic m) = panic m

module _ (env : Env) (w : World) (prom : ObjectKey) (svc : Service) (c : Credentials) where
  routed :
      (t : List Event) (secret : Secret) (domain : Answer String) (is_managed : Bool)
      → w.apps_domain ≡ domain
      → env.apps_domain t ≡ domain
      → w.token_secret (in_namespace prom.namespace trickster) ≡ yields secret
      → index secret.contents "token" ≡ bearer_of c
      → openshift_managed w.detector ≡ is_managed
      → outcome (config_for w prom svc is_managed)
        ≡ withheld is_managed
            (config_of env w.detector svc (service w.names w.detector prom svc.ports) c t).0
  unfolding config_of Answer.◌>>=◌ continue
  routed t secret (yields s) true e f g h d = rw (d, e, f, g, h)
  routed t secret (fails x) true e f g h d = rw (d, e, f)
  routed t secret domain false e f g h d = rw (d)

  -- What the hub is told to reach the Prometheus by for a client organization is what it is told for
  -- the Prometheus itself, an error included, but without the credentials and the CA where OpenShift
  -- does not manage it. The role binding is there and marked as registered, the domain of the
  -- cluster is the same for both, and the token of the service account, which is there, is the one
  -- the Prometheus is registered with.
  pub config-agrees :
      (t : List Event) (annotations : Dict String) (secret : Secret)
      → w.get_role_binding (in_namespace svc.key.namespace trickster_role) ≡ yields annotations
      → (index annotations w.registered_key == "") ≡ false
      → w.apps_domain ≡ env.apps_domain t
      → w.token_secret (in_namespace prom.namespace trickster) ≡ yields secret
      → index secret.contents "token" ≡ bearer_of c
      → outcome (build_config w prom svc)
        ≡ withheld
            (openshift_managed w.detector)
            (config_of env w.detector svc (service w.names w.detector prom svc.ports) c t).0
  unfolding build_config Answer.◌>>=◌
  config-agrees t annotations secret role marked same found token =
      rw (role, marked)
        (routed t secret (env.apps_domain t) (openshift_managed w.detector) same refl found token
          refl)
