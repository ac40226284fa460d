-- ===== src/Perses/Requests/Addressed.antt =====
-- Where the client of Perses sends its requests, and with what credentials.
use grafana_tools.Base.{
  String, Bool, true, false, Option, none, some, ◌≡◌, refl, arith, ◌==◌, Dict, index, lookup,
  concat, if◌then◌else◌, ap, sym, ◌∙◌,
}
use text.Mathlib.TextLemmas.{append_assoc}
use grafana_tools.Kube.{ObjectKey}
use grafana_tools.Kube.Exec.{Answer, yields, fails}
use grafana_tools.Kube.Answer.{◌>>=◌}
use grafana_tools.Net.{
  Url, Client, new_client, authorization_of, client_with, is_insecure, unverified, preset, pinned,
}
use grafana_tools.Grafana.Client.{App, Config, get_grafana_config, auth_by, config_with, tls_of}
use grafana_tools.Grafana.State.{PersesConfiguration}
use grafana_tools.Perses.Requests.{
  create_path, delete_path, new_perses_client, request, token_of, ca_of, perses_config,
}
use grafana_tools.Perses.Dashboard.{Dashboard, DashboardRef, Env, apply, record_success}

slash : (name : String) → concat "/dashboards" (concat "/" name) ≡ concat "/dashboards/" name
slash name = sym (append_assoc "/dashboards" "/" name)

below :
    (project folder name : String)
    → concat (create_path project folder) (concat "/" name) ≡ delete_path project folder name
unfolding create_path delete_path
below project folder name =
    rw (append_assoc, append_assoc, append_assoc, append_assoc, slash name) refl

-- The dashboard that a status names after a create is deleted at its name below the path of the create.
pub deleted_where_created :
    (env : Env) (d : Dashboard) (name state : String) (config : PersesConfiguration)
    (ref : DashboardRef)
    → (apply env (record_success name config state) d).dashboard ≡ some ref
    → delete_path ref.project_name ref.folder_name ref.name
      ≡ concat (create_path config.project_name config.folder_name) (concat "/" name)
unfolding apply
deleted_where_created env d name state config ref same =
    ground (arith, same, below config.project_name config.folder_name name)

module _ (parse : String → Answer Url) (is_ip : String → Bool) where
  pinned_or_dialled :
      (plain : Bool) (u : Answer Url) (base token ca : String) (c : Client)
      → (if plain
          then elim u [
            | fails e ↦ fails e
            | yields x ↦
                yields
                  (client_with base token ca (if is_insecure is_ip x then unverified else preset))
          ]
          else yields (client_with base token ca (pinned ca)))
        ≡ yields c
      → c.token ≡ token
  pinned_or_dialled true (fails e) base token ca c h = absurd (ground (arith, h))
  pinned_or_dialled true (yields x) base token ca c h = ground (arith, h)
  pinned_or_dialled false u base token ca c h = ground (arith, h)

  made-token :
      (base token ca : String) (c : Client)
      → new_client parse is_ip base token ca ≡ yields c
      → c.token ≡ token
  unfolding new_client
  made-token base token ca c h = pinned_or_dialled (ca == "") (parse base) base token ca c h

  token-index :
      (m : Dict String) (t : Option String)
      → lookup m "token" ≡ t
      → token_of (some (auth_by m t)) ≡ index m "token"
  unfolding index
  token-index m none e = rw e refl
  token-index m (some t) e = rw e refl

  abbrev connect : Config → Answer Client
  connect cfg = new_client parse is_ip cfg.addr (token_of cfg.auth) (ca_of cfg.tls)

  configured-token :
      (url : Answer String) (m : Dict String) (app : App) (c : Client)
      → app.url ≡ url
      → (get_grafana_config app (some m) >>= connect) ≡ yields c
      → c.token ≡ index m "token"
  unfolding get_grafana_config ◌>>=◌
  configured-token (fails x) m app c e h =
      let failing : get_grafana_config app (some m) ≡ fails x = rw e refl in
      absurd (ground (arith, sym (ap (λ a. a >>= connect) failing) ∙ h))
  configured-token (yields u) m app c e h =
      let auth = some (auth_by m (lookup m "token")) in
      let made : get_grafana_config app (some m)
          ≡ yields (record { addr = u; auth = auth; tls = tls_of app.ca_bundle }) =
        rw e refl in
      made-token u (token_of auth) (ca_of (tls_of app.ca_bundle)) c
        (sym (ap (λ a. a >>= connect) made) ∙ h)
      ∙ token-index m (lookup m "token") refl

  -- Where an AppBinding names a secret that can be read and a client is made for it, the requests of
  -- the client carry the entry `token` of the secret and nothing else: none where there is no such
  -- entry, even if there is a user name with a password.
  pub client-authorization :
      (get : ObjectKey → Answer (Dict String)) (app : App) (name : String) (m : Dict String)
      (c : Client)
      → app.secret ≡ some name
      → (name == "") ≡ false
      → get (record { namespace = app.key.namespace; name = name }) ≡ yields m
      → new_perses_client parse is_ip get app ≡ yields c
      → (method url : String) (body : Option String)
      → (request c method body url).authorization ≡ authorization_of (index m "token")
  unfolding new_perses_client
  client-authorization get app name m c named nonempty found made method url body =
      let read : config_with perses_config get app app.secret ≡ get_grafana_config app (some m) =
        rw (named, nonempty, found) refl in
      ap authorization_of
        (configured-token app.url m app c refl (sym (ap (λ a. a >>= connect) read) ∙ made))
