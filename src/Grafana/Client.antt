-- ===== src/Grafana/Client.antt =====
-- pkg/grafana/client.go and config.go: the settings of a Grafana and the client made of them.
use grafana_tools.Base.{
  String, ℕ, Bool, Option, none, some, ◌==◌, Dict, index, lookup, if◌then◌else◌,
}
use grafana_tools.Kube.{ObjectKey}
use grafana_tools.Net.{Url, is_insecure}
use grafana_tools.Kube.Exec.{Answer, yields, fails}

-- An AppBinding, as to its URL, the name of its secret and its CA bundle, empty where there is none.
pub record App : Type 0 where
  pub key : ObjectKey
  pub is_deleted : Bool
  pub url : Answer String
  pub secret : Option String
  pub ca_bundle : String

-- `sdk.AuthConfig`
pub data Auth : Type 0 where
  bearer : (token : String) → Auth
  basic : (username password : String) → Auth

pub record Config : Type 0 where
  pub addr : String
  pub auth : Option Auth
  pub tls : Option String

-- What is set in the HTTP client; the timeout is in seconds.
pub record Transport : Type 0 where
  pub timeout : Option ℕ
  pub root_ca : Option String
  pub skips_verification : Bool

-- The libraries: `url.Parse`, whether `net.ParseIP` reads a host, and `sdk.NewClient`.
pub record Env (Client : Type 0) : Type 0 where
  pub parse : String → Answer Url
  pub is_ip : String → Bool
  pub new_client : String → Option Auth → Transport → Answer Client

abbrev pub auth_by : Dict String → Option String → Auth
auth_by m none = basic (index m "username") (index m "password")
auth_by m (some token) = bearer token

abbrev pub auth_of : Option (Dict String) → Option Auth
auth_of none = none
auth_of (some m) = some (auth_by m (lookup m "token"))

abbrev pub tls_of : String → Option String
tls_of ca = if ca == "" then none else some ca

-- `GetGrafanaConfig`; a secret is what it holds.
unfoldable pub get_grafana_config : App → Option (Dict String) → Answer Config
unfolding index lookup
get_grafana_config app secret = elim app.url [
  | fails e ↦ fails e
  | yields addr ↦ yields (record { addr = addr; auth = auth_of secret; tls = tls_of app.ca_bundle })
]

abbrev pub given_ca : Option String → Option String
given_ca none = none
given_ca (some ca) = tls_of ca

abbrev pub then_config :
    Answer (Dict String) → (Option (Dict String) → Answer Config) → Answer Config
then_config (fails e) f = fails e
then_config (yields m) f = f (some m)

-- The secret that an AppBinding names is read first; `configure` is `GetGrafanaConfig`.
abbrev pub config_with :
    (App → Option (Dict String) → Answer Config)
    → (ObjectKey → Answer (Dict String))
    → App
    → Option String
    → Answer Config
config_with configure get app none = configure app none
config_with configure get app (some name) =
    if name == ""
    then configure app none
    else then_config (get (record { namespace = app.key.namespace; name = name })) (configure app)

module _ {Client : Type 0} (env : Env Client) where
  -- A client for an address with credentials; the transport has the roots of a configuration.
  unfoldable pub dial : Option ℕ → Option String → String → Option Auth → Answer Client
  unfolding is_insecure
  dial timeout tls addr auth = elim (env.parse addr) [
    | fails e ↦ fails e
    | yields u ↦ env.new_client addr auth (record {
      timeout = timeout;
      root_ca = given_ca tls;
      skips_verification = is_insecure env.is_ip u;
    })
  ]

  abbrev pub dial_config : Answer Config → Answer Client
  dial_config (fails e) = fails e
  dial_config (yields cfg) = dial (some 30) cfg.tls cfg.addr cfg.auth

  -- `newGrafanaClient`
  unfoldable pub new_grafana_client : (ObjectKey → Answer (Dict String)) → App → Answer Client
  unfolding get_grafana_config dial
  new_grafana_client get app = dial_config (config_with get_grafana_config get app app.secret)

  -- `NewGrafanaClient`; the AppBinding is what `openvizapi.GetGrafana` answers.
  unfoldable pub new_client_of : (ObjectKey → Answer (Dict String)) → Answer App → Answer Client
  unfolding new_grafana_client
  new_client_of get (fails e) = fails e
  new_client_of get (yields app) = new_grafana_client get app
