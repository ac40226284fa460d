-- ===== src/Tests/Alertmanagers.antt =====
-- An Alertmanager that reports to the inbox.
use grafana_tools.Base.{true, false, none, some, List, [], ◌∷◌, ◌≡◌, refl, ◌↔◌}
use grafana_tools.Kube.{failed, done}
use grafana_tools.Kube.Exec.{yields, fails, ok, ◌>>=◌}
use grafana_tools.Alertmanager.{Receiver, ConfigSpec, Alertmanager, ApiService}
use grafana_tools.Alertmanager.Validation.{validate_config}
use grafana_tools.Alertmanager.Valid.{IsValid, validate_config-IsValid}
use grafana_tools.Alertmanager.Reconcile.{
  Env, inbox_service, inbox_group, configure, setup, write_config, with_inbox,
}

abbrev receiver : Receiver
receiver = record { name = "ops"; email_configs = []; webhook_configs = [] }

abbrev spec : ConfigSpec
spec = record { receivers = receiver ∷ []; has_route = false }

abbrev alertmanager : Alertmanager
alertmanager = record {
  key = record { namespace = "monitoring"; name = "main" };
  is_deleted = false;
  config_labels = none;
  matcher_strategy = "";
}

abbrev inbox : ApiService
inbox = record {
  group = inbox_group;
  service = some (record { namespace = "monitoring"; name = "inbox-agent" });
}

abbrev services : List ApiService
services = record { group = "apps"; service = none } ∷ inbox ∷ []

abbrev env : Env
env = record {
  spec = spec;
  get = λ t. yields alertmanager;
  ready = λ t. yields true;
  api_services = λ t. yields services;
  patch = λ t f. yields (f alertmanager);
  write_config = λ t k f. yields (f (record { labels = []; receivers = []; route = none }));
  delete_config = λ t k. fails (failed "forbidden");
}

validate_config-IsValid_example : (validate_config spec ≡ none) ↔ IsValid spec
validate_config-IsValid_example = validate_config-IsValid spec

configured_inbox : (configure env []).0 ≡ ok done
unfolding configure setup ◌>>=◌ validate_config inbox_service write_config with_inbox
configured_inbox = refl
