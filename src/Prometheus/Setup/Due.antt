-- ===== src/Prometheus/Setup/Due.antt =====
-- When a registration is due again.
use grafana_tools.Base.{
  String, false, Option, none, some, ◌≡◌, arith, ◌==◌, eq_iff, assign, index-assign,
  index-assign_other, index-erase_other,
}
use grafana_tools.Rancher.{RancherToken}
use grafana_tools.Prometheus.{RoleBinding, Env}
use grafana_tools.Prometheus.Setup.{is_due, apply_markers}

-- With the marks set, no registration is due in the same state with the same token: the next run that
-- reads them back makes no call of the hub. The two keys differ.
pub apply_markers-due :
    (env : Env) (state : String) (token : Option RancherToken) (rb : RoleBinding)
    → (env.texts.registered_key == env.texts.token_id_key) ≡ false
    → is_due env (apply_markers env state token rb) state token ≡ false
unfolding is_due apply_markers
apply_markers-due env state none rb h =
    let keys = env.texts in
    let m = assign keys.registered_key state rb.annotations in
    rw (index-erase_other keys.token_id_key keys.registered_key m h) (
      rw (index-assign keys.registered_key state rb.annotations)
        (ground (arith, eq_iff state state)))
apply_markers-due env state (some t) rb h =
    let keys = env.texts in
    let m = assign keys.registered_key state rb.annotations in
    rw
      (
        index-assign_other keys.token_id_key keys.registered_key t.token_id m h,
        index-assign keys.token_id_key t.token_id m,
      )
      (rw (index-assign keys.registered_key state rb.annotations)
        (ground (arith, eq_iff state state, eq_iff t.token_id t.token_id)))
