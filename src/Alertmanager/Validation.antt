-- ===== src/Alertmanager/Validation.antt =====
-- `validateConfig` of alertmanager_controller.go.
use grafana_tools.Base.{
  String, ℕ, Bool, true, Option, none, some, List, [], ◌∷◌, ◌++◌, ◌||◌, ◌==◌, suc, itoa, concat,
  is_some, if◌then◌else◌,
}
use grafana_tools.Kube.{Error, failed}
use grafana_tools.Alertmanager.{SecretKey, EmailConfig, WebhookConfig, Receiver, ConfigSpec}

abbrev pub is_blank : SecretKey → Bool
is_blank k = k.name == "" || k.key == ""

abbrev pub lacks_password : Option SecretKey → Bool
lacks_password none = true
lacks_password (some k) = is_blank k

unfoldable pub is_bad_email : EmailConfig → Bool
is_bad_email c = c.to == "" || c.from == "" || c.smarthost == "" || lacks_password c.auth_password

abbrev pub email_error : ℕ → String
email_error i =
    concat "emailConfigs["
      (concat (itoa i) "] requires to, from, smarthost, and authPassword.name/key")

unfoldable pub email_errors : ℕ → List EmailConfig → List String
unfolding is_bad_email
email_errors i [] = []
email_errors i (c ∷ cs) =
    if is_bad_email c then email_error i ∷ email_errors (suc i) cs else email_errors (suc i) cs

abbrev pub no_target : ℕ → WebhookConfig → List String
no_target i c =
    if is_some c.url || is_some c.url_secret
    then []
    else concat "webhookConfigs[" (concat (itoa i) "] requires url or urlSecret") ∷ []

abbrev pub bad_secret : ℕ → Option SecretKey → List String
bad_secret i none = []
bad_secret i (some k) =
    if is_blank k
    then concat "webhookConfigs[" (concat (itoa i) "].urlSecret requires name and key") ∷ []
    else []

unfoldable pub webhook_errors : ℕ → List WebhookConfig → List String
webhook_errors i [] = []
webhook_errors i (c ∷ cs) =
    no_target i c ++ (bad_secret i c.url_secret ++ webhook_errors (suc i) cs)

abbrev pub name_errors : String → List String
name_errors name = if name == "" then "receiver name must be specified" ∷ [] else []

-- `errors.Join`: no error where there are none.
abbrev pub lines : String → List String → String
lines first [] = first
lines first (e ∷ es) = concat first (concat "\n" (lines e es))

abbrev pub joined : List String → Option Error
joined [] = none
joined (e ∷ es) = some (failed (lines e es))

abbrev pub receiver_errors : Receiver → List String
receiver_errors r =
    name_errors r.name ++ (email_errors 0 r.email_configs ++ webhook_errors 0 r.webhook_configs)

abbrev pub validate_receivers : List Receiver → Bool → Option Error
validate_receivers (r ∷ []) has_route =
    if has_route
    then some (failed "alertmanager config route is managed by the controller")
    else joined (receiver_errors r)
validate_receivers _ has_route = some (failed "exactly one receiver is required")

unfoldable pub validate_config : ConfigSpec → Option Error
unfolding email_errors webhook_errors itoa
validate_config spec = validate_receivers spec.receivers spec.has_route
