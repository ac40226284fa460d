-- ===== src/Alertmanager.antt =====
-- pkg/controllers/alertmanager: the configuration by which alerts come to the inbox and to the channels
-- that the operator was started with.
pub mod Validation
pub mod Valid
pub mod Reconcile
pub mod Ends
use grafana_tools.Base.{String, ℕ, Bool, true, false, Option, none, some, List, [], ◌∷◌, Dict}
use grafana_tools.Kube.{ObjectKey}

-- The selectors of keys in secrets.
pub record SecretKey : Type 0 where
  pub name : String
  pub key : String

pub record EmailConfig : Type 0 where
  pub to : String
  pub from : String
  pub smarthost : String
  pub auth_password : Option SecretKey

-- `MaxAlerts` is 0 in all of them.
pub record WebhookConfig : Type 0 where
  pub send_resolved : Option Bool
  pub url : Option String
  pub url_secret : Option SecretKey
  pub insecure_skip_verify : Option Bool

-- A receiver, as to its name and these two kinds of channels.
pub record Receiver : Type 0 where
  pub name : String
  pub email_configs : List EmailConfig
  pub webhook_configs : List WebhookConfig

-- The configuration that the operator was started with.
pub record ConfigSpec : Type 0 where
  pub receivers : List Receiver
  pub has_route : Bool

-- An Alertmanager: the match labels of its configuration selector, where it has one, and the type of
-- the matcher strategy.
pub record Alertmanager : Type 0 where
  pub key : ObjectKey
  pub is_deleted : Bool
  pub config_labels : Option (Dict String)
  pub matcher_strategy : String

-- A route; those below it repeat every day on the alert `Watchdog`.
pub record Route : Type 0 where
  pub group_by : List String
  pub group_wait : String
  pub group_interval : String
  pub receiver : String
  pub repeat_interval : String
  pub continue : Bool
  pub watchdog_receiver : String

pub record AlertmanagerConfig : Type 0 where
  pub labels : Dict String
  pub receivers : List Receiver
  pub route : Option Route

pub record ApiService : Type 0 where
  pub group : String
  pub service : Option ObjectKey
