-- ===== src/Tests/Builders.antt =====
-- A builder whose default AppBinding is read once.
use grafana_tools.Base.{String, ℕ, false, none, some, [], ◌∷◌, ◌≡◌, refl, arith, Dict}
use grafana_tools.Kube.{ObjectKey}
use grafana_tools.Kube.Exec.{Answer, yields, ok, panic}
use grafana_tools.Grafana.Client.{App, bearer, Config, Env, get_grafana_config}
use grafana_tools.Grafana.Builder.{Builder, new_builder, reconcile, get_grafana_client, build}
use grafana_tools.Grafana.Builder.Reach.{Reach, start, later, reconciled}
use grafana_tools.Grafana.Builder.Never.{client-Starved}
use grafana_tools.Grafana.Builder.Follows.{Holds, reconcile-Holds}

abbrev env : Env String
env = record {
  parse = λ s. yields (record { scheme = "https"; hostname = "grafana.demo" });
  is_ip = λ s. false;
  new_client = λ addr auth t. yields addr;
}

abbrev app : App
app = record {
  key = record { namespace = "monitoring"; name = "grafana" };
  is_deleted = false;
  url = yields "https://grafana.demo";
  secret = some "grafana-auth";
  ca_bundle = "";
}

abbrev secret : ObjectKey → Answer (Dict String)
secret k = yields (("token", "t0") ∷ [])

abbrev config : Config
config = record { addr = "https://grafana.demo"; auth = some (bearer "t0"); tls = none }

abbrev hash : Config → ℕ
hash c = 7

abbrev after : Builder String
after = (reconcile hash secret (yields app) (new_builder none)).0

reached : Reach env hash none after
reached = later start (reconciled secret (yields app))

client-Starved_example :
    (get_grafana_client env after).1 ≡ panic "nil dereference of the configuration"
unfolding reconcile new_builder build get_grafana_config
client-Starved_example = client-Starved env hash reached

built : build secret app ≡ ok config
unfolding build get_grafana_config
built = refl

reconcile-Holds_example : Holds env hash 7 (reconcile hash secret (yields app) after).0.app_cfg
reconcile-Holds_example =
    reconcile-Holds env hash reached secret app config refl built (ground arith)
