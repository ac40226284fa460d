-- ===== src/Perses/Requests.antt =====
-- pkg/perses/client.go and handlers.go: the client of Perses and its two requests. Finding the address,
-- the transport and JSON are arguments.
pub mod Addressed
use grafana_tools.Base.{
  String, ℕ, Bool, Option, none, some, ◌||◌, ◌==◌, ◌/◌, eqb, concat, itoa, Dict, if◌then◌else◌,
}
use grafana_tools.Kube.{ObjectKey, Error, failed, message}
use grafana_tools.Kube.Exec.{Answer, yields, fails}
use grafana_tools.Kube.Answer.{◌>>=◌}
use grafana_tools.Net.{Url, Transport, Client, new_client, Response, authorization_of}
use grafana_tools.Grafana.Client.{
  App, Auth, bearer, basic, Config, config_with, get_grafana_config, given_ca,
}
use grafana_tools.Perses.Variables.{PersesModel}

pub record Request : Type 0 where
  pub method : String
  pub url : String
  pub body : Option String
  pub authorization : Option String

-- `strings.TrimSpace`, `http.StatusText` and the verb `%q`
pub record Texts : Type 0 where
  pub trim : String → String
  pub status_text : ℕ → String
  pub quote : String → String

-- `address` is `info.APIServerAddress` with a path joined, as `http.NewRequest` takes it; the body of a
-- response is read up to the first 64 KiB.
pub record Http : Type 0 where
  pub address : String → String → Answer String
  pub encode : PersesModel → Answer String
  pub send : Transport → Request → Answer Response

abbrev pub token_of : Option Auth → String
token_of none = ""
token_of (some (bearer token)) = token
token_of (some (basic username password)) = ""

abbrev pub ca_of : Option String → String
ca_of none = ""
ca_of (some ca) = ca

-- `GetGrafanaConfig` of pkg/perses, which is that of pkg/grafana once more.
abbrev pub perses_config : App → Option (Dict String) → Answer Config
perses_config app secret = get_grafana_config app secret

-- `newPersesClient`: of the credentials only a token is taken.
unfoldable pub new_perses_client :
    (String → Answer Url)
    → (String → Bool)
    → (ObjectKey → Answer (Dict String))
    → App
    → Answer Client
unfolding ◌>>=◌ get_grafana_config new_client
new_perses_client parse is_ip get app = do
  cfg ← config_with perses_config get app app.secret
  new_client parse is_ip cfg.addr (token_of cfg.auth) (ca_of cfg.tls)

unfoldable pub create_path : String → String → String
create_path project folder =
    concat "api/v1/projects/" (concat project (concat "/folders/" (concat folder "/dashboards")))

unfoldable pub delete_path : String → String → String → String
delete_path project folder name =
    concat "api/v1/projects/"
      (concat project (concat "/folders/" (concat folder (concat "/dashboards/" name))))

abbrev pub request : Client → String → Option String → String → Request
request c method body url = record {
  method = method;
  url = url;
  body = body;
  authorization = authorization_of c.token;
}

module _ (http : Http) (c : Client) where
  -- `DeleteDashboardByName`, as to what it sends.
  unfoldable pub delete_dashboard : (project folder name : String) → Answer Response
  unfolding ◌>>=◌ delete_path
  delete_dashboard project folder name = do
    url ← http.address c.base_url (delete_path project folder name)
    http.send c.transport (request c "DELETE" none url)

  -- `SetDashboard`, as to what it sends.
  unfoldable pub set_dashboard : PersesModel → (project folder : String) → Answer Response
  unfolding ◌>>=◌ create_path
  set_dashboard m project folder = do
    body ← http.encode m
    url ← http.address c.base_url (create_path project folder)
    http.send c.transport (request c "POST" (some body) url)

module _ (texts : Texts) where
  abbrev pub shown : String → String
  shown m = if m == "" then "<empty response body>" else m

  unfoldable pub read_response_body : Answer String → String
  read_response_body (fails e) = concat "<failed to read response body: " (concat (message e) ">")
  read_response_body (yields body) = shown (texts.trim body)

  unfoldable pub refusal : (what name : String) → Response → Error
  unfolding read_response_body
  refusal what name r = failed (
      concat "failed to " (
        concat what (
          concat " perses dashboard " (
            concat (texts.quote name) (
              concat ": perses server returned " (
                concat (itoa r.status) (
                  concat " " (
                    concat (texts.status_text r.status)
                      (concat ": " (read_response_body r.body))))))))))

  abbrev pub is_success : Response → Bool
  is_success r = eqb (r.status / 100) 2

  -- A delete succeeds with 2xx, or 404 when the dashboard is gone already.
  unfoldable pub delete_answer : String → Answer Response → Answer (Unit {0})
  delete_answer name (fails e) = fails e
  delete_answer name (yields r) =
      if is_success r || eqb r.status 404 then yields tt else fails (refusal "delete" name r)

  -- A create succeeds with 2xx, or 409 when a dashboard of that name is there already.
  unfoldable pub set_answer : String → Answer Response → Answer (Unit {0})
  set_answer name (fails e) = fails e
  set_answer name (yields r) =
      if is_success r || eqb r.status 409 then yields tt else fails (refusal "create" name r)
