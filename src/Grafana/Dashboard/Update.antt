-- ===== src/Grafana/Dashboard/Update.antt =====
-- A dashboard that Grafana holds is updated, not made a second time.
use grafana_tools.Base.{
  ℕ, String, Bool, true, false, Option, none, some, List, [], ◌∷◌, ◌≡◌, refl, sym, arith, ◌∙◌,
  subst, inl, inr, Option-cases, All, eq_iff,
}
use grafana_tools.Kube.{Error, Reply}
use grafana_tools.Kube.Exec.{
  Answer, yields, fails, Outcome, outcome, ok, err, panic, ask, check_ok, ask-holds, local-holds,
}
use grafana_tools.Json.{Raw, number, text, get}
use grafana_tools.Grafana.Panels.{add_dashboard_id, replace_datasource}
use grafana_tools.Grafana.Panels.Replace.{members, get-add_dashboard_id, get-replace_datasource}
use grafana_tools.Grafana.State.{AppBinding, StateMap, grafana_state}
use grafana_tools.Grafana.Dashboard.{
  Dashboard, DashboardRef, Event, submitted, Env, Upload, Response, Accepted, accepted, refused,
  in_place, present, with_datasource, adopted, templated, handle_error, record_upload, upload,
  set_dashboard, state_of, cached,
}

-- The requests of a run that would make or change a dashboard in Grafana.
abbrev pub uploads : List Event → List Upload
uploads [] = []
uploads (submitted u r ∷ t) = u ∷ uploads t
uploads (_ ∷ t) = uploads t

abbrev pub Carries : ℕ → String → Option Raw → Type 0
Carries id uid none = ⊥
Carries id uid (some m) =
    (get "id" (members m) ≡ some (number id)) × (get "uid" (members m) ≡ some (text uid))

handle_error-uploads :
    (env : Env) (d : Dashboard) (g : Bool) (e : Error) (t : List Event)
    → uploads (handle_error env d g e t).1 ≡ uploads t
unfolding handle_error
handle_error-uploads env d g e t = ground arith

recorded-uploads :
    (env : Env) (d : Dashboard) (state : String) (r : Response Accepted) (t : List Event)
    → uploads (record_upload env d state r t).1 ≡ uploads t
unfolding record_upload
recorded-uploads env d state (accepted a) t = ground arith
recorded-uploads env d state (refused s e) t = handle_error-uploads env d _ e t

ok-injective : {A : Type 0} {a b : A} → Outcome.ok a ≡ ok b → a ≡ b
ok-injective e = cc

ok_outcome : (a : Answer Raw) (r : Raw) → outcome a ≡ ok r → a ≡ yields r
ok_outcome (yields x) r e = cc
ok_outcome (fails x) r e = cc

module _ (id : ℕ) (uid : String) where
  present-Carries :
      (o : Outcome Raw) {m : Option Raw}
      → present o ≡ ok m
      → ((r : Raw) → o ≡ ok r → Carries id uid (some r))
      → Carries id uid m
  present-Carries (ok r) e h = subst (Carries id uid) (ok-injective e) (h r refl)
  present-Carries (err x) e h = cc
  present-Carries (panic x) e h = cc

  adopted-Carries :
      (model : Raw) (ref : DashboardRef) (state : String) {m : Option Raw}
      → ref.id ≡ some id
      → ref.uid ≡ some uid
      → in_place ref.state state ≡ true
      → adopted (some model) (some ref) state ≡ ok m
      → Carries id uid m
  unfolding adopted
  adopted-Carries model ref state has_id has_uid place e =
      present-Carries (add_dashboard_id model id uid) (rw (place, has_id, has_uid) at e)
        λ r h. get-add_dashboard_id model r id uid h

  replaced-Carries :
      (model : Option Raw) (ds : String) {m : Option Raw}
      → Carries id uid model
      → with_datasource model ds ≡ ok m
      → Carries id uid m
  replaced-Carries none ds c e = absurd c
  replaced-Carries (some model) ds c e =
      present-Carries (outcome (replace_datasource model ds)) e λ r h.
        let h' = ok_outcome (replace_datasource model ds) r h in
        (
          get-replace_datasource model r ds "id" h' (ground (arith, eq_iff "id" "panels"))
                (ground (arith, eq_iff "id" "templating"))
              ∙ c.0,
          get-replace_datasource model r ds "uid" h' (ground (arith, eq_iff "uid" "panels"))
                (ground (arith, eq_iff "uid" "templating"))
              ∙ c.1,
        )

  templated-Carries :
      (choice : Option Bool) (ab : AppBinding) (model : Option Raw) (ds : String) {m : Option Raw}
      → Carries id uid model
      → templated choice ab model ds ≡ ok m
      → Carries id uid m
  unfolding templated
  templated-Carries (some true) ab model ds c e = elim (Option-cases ab.grafana_parameters) [
    | inl missing ↦ absurd (ground arith)
    | inr (p, given) ↦ replaced-Carries model ds c (rw given at e)
  ]
  templated-Carries _ ab model ds c e = subst (Carries id uid) (ok-injective e) c

module _ (env : Env) (d : Dashboard) (ab : AppBinding) (m : StateMap) (state : String) (model : Raw)
    (ref : DashboardRef) (id : ℕ) (uid : String) (bound : env.get_grafana [] d ≡ yields ab)
    (known : grafana_state env.hash ab [] ≡ (m, yields state)) (has_model : d.model ≡ some model)
    (has_ref : d.dashboard ≡ some ref) (has_id : ref.id ≡ some id) (has_uid : ref.uid ≡ some uid)
    (place : in_place ref.state state ≡ true) where
  abbrev UpdatesOnly : Outcome Reply × List Event → Type 0
  UpdatesOnly (o, t) = All (λ u. Carries id uid u.model) (uploads t)

  failed-UpdatesOnly :
      (x : Dashboard) (g : Bool) (e : Error) (t : List Event)
      → uploads t ≡ []
      → UpdatesOnly (handle_error env x g e t)
  failed-UpdatesOnly x g e t none_yet = rw (handle_error-uploads env x g e t, none_yet) tt

  upload-UpdatesOnly :
      (x : Dashboard) (folder_id : ℕ) (t : List Event)
      → Carries id uid x.model
      → uploads t ≡ []
      → UpdatesOnly (upload env x state folder_id t)
  unfolding upload
  upload-UpdatesOnly x folder_id t c none_yet =
      rw (recorded-uploads env x state _ _, none_yet) (c, tt)

  asked : ask {E = Event} (λ t. env.get_grafana t d) [] ≡ (ok ab, [])
  unfolding ask
  asked = rw bound

  stated : state_of env ab [] ≡ (ok state, cached m ∷ [])
  unfolding state_of
  stated = ground (arith, known)

  -- When the status names the id and uid of a dashboard and, where it records a state, that of the
  -- AppBinding as it is now, then every model that is sent to Grafana carries that id and uid, with
  -- the datasources replaced or not.
  pub updates_in_place : All (λ u. Carries id uid u.model) (uploads (set_dashboard env d []).1)
  unfolding set_dashboard
  updates_in_place = subst UpdatesOnly (sym (check_ok _ _ _ [] ab [] asked)) (
      subst UpdatesOnly (sym (check_ok _ _ _ [] state (cached m ∷ []) stated)) (
        local-holds UpdatesOnly _ _ _ _ (λ e h. failed-UpdatesOnly d false e _ refl)
          (λ model1 h.
            let c =
              adopted-Carries id uid model ref state has_id has_uid place
                (rw (has_model, has_ref) at h) in
            ask-holds UpdatesOnly _ _ _ _ (λ e h. failed-UpdatesOnly _ false _ _ refl)
              λ config h'.
                local-holds UpdatesOnly _ _ _ _ (λ e h. failed-UpdatesOnly _ false e _ refl)
                  (λ model2 h2.
                    ask-holds UpdatesOnly _ _ _ _ (λ e h. failed-UpdatesOnly _ false e _ refl)
                      λ u h3.
                        upload-UpdatesOnly _ _ _
                          (templated-Carries id uid d.templatize ab model1 config.datasource c h2)
                          refl)
                  (λ x p. tt))
          (λ x p. tt)))
