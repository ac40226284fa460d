-- ===== src/Grafana/Dashboard/Outcomes.antt =====
-- How the processing of a live GrafanaDashboard can end.
use grafana_tools.Base.{ℕ, String, Bool, false, Option, none, some, List, ◌∷◌, ◌≡◌, arith}
use grafana_tools.Kube.{Error, Reply, done}
use grafana_tools.Kube.Exec.{check-holds, Answer, yields, fails, Outcome, ok, err, panic}
use grafana_tools.Grafana.Dashboard.{
  Dashboard, Event, patched_status, submitted, warned, record_failure, record_success, Env, Upload,
  Response, Accepted, is_status, handle_error, record_upload, upload, accepted, refused,
  set_dashboard, bad_parameters,
}

abbrev pub error_of : Answer Dashboard → Option Error
error_of (yields d) = none
error_of (fails e) = some e

-- The end of a run that met no nil pointer: the status was set from Grafana's acceptance, or it was
-- set to failed with the text of the warning, and the run is repeated after the delay.
abbrev pub Settles : Env → Outcome Reply × List Event → Type 0
Settles env
      (ok r, patched_status (record_success a org st) (yields d) ∷ submitted u (accepted b) ∷ t) =
    (r ≡ done) × (a ≡ b)
Settles env
      (err e, patched_status (record_success a org st) (fails e') ∷ submitted u (accepted b) ∷ t) =
    (e ≡ e') × (a ≡ b)
Settles env (ok r, patched_status (record_failure m g) a ∷ warned w ∷ t) =
    (r.requeue_after ≡ env.requeue_after_duration) × (r.error ≡ error_of a) × (w ≡ m)
Settles env (panic m, t) = Unit
Settles env _ = ⊥

handle_error-Settles :
    (env : Env) (d : Dashboard) (g : Bool) (e : Error) (t : List Event)
    → Settles env (handle_error env d g e t)
unfolding handle_error
handle_error-Settles env d g e t = ground arith

recorded-Settles :
    (env : Env) (d : Dashboard) (state : String) (u : Upload) (r : Response Accepted)
    (t : List Event)
    → Settles env (record_upload env d state r (submitted u r ∷ t))
unfolding record_upload
recorded-Settles env d state u (refused s e) t =
    handle_error-Settles env d (is_status s 400) e (submitted u (refused s e) ∷ t)
recorded-Settles env d state u (accepted a) t = ground arith

upload-Settles :
    (env : Env) (d : Dashboard) (state : String) (folder_id : ℕ) (t : List Event)
    → Settles env (upload env d state folder_id t)
unfolding upload
upload-Settles env d state folder_id t = recorded-Settles env d state _ _ t

-- Whatever the environment answers, setDashboard ends with the status recording what Grafana
-- accepted and no requeue, with the error of that very status patch, with a warning and a failed
-- status of the same text and a requeue after the configured delay, or in a nil dereference or
-- write to a nil map.
pub set_dashboard-Settles :
    (env : Env) (d : Dashboard) (t : List Event) → Settles env (set_dashboard env d t)
unfolding set_dashboard
set_dashboard-Settles env d t =
    check-holds (Settles env) _ _ _ t (handle_error-Settles env d false)
      (λ ab t1.
        check-holds (Settles env) _ _ _ t1 (handle_error-Settles env d false)
          (λ state t2.
            check-holds (Settles env) _ _ _ t2 (handle_error-Settles env d false)
              (λ model1 t3.
                let d1 = record d { model = model1 } in
                check-holds (Settles env) _ _ _ t3
                  (λ e. handle_error-Settles env d1 false (bad_parameters e))
                  (λ config t4.
                    check-holds (Settles env) _ _ _ t4 (handle_error-Settles env d1 false)
                      (λ model2 t5.
                        let d2 = record d1 { model = model2 } in
                        check-holds (Settles env) _ _ _ t5 (handle_error-Settles env d2 false)
                          (λ u t6. upload-Settles env d2 state _ t6) (λ m t'. tt))
                      (λ m t'. tt))
                  (λ m t'. tt))
              (λ m t'. tt))
          (λ m t'. tt))
      (λ m t'. tt)
