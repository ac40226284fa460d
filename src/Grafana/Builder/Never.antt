-- ===== src/Grafana/Builder/Never.antt =====
-- The builder never makes a client.
use grafana_tools.Base.{
  ℕ, Bool, true, false, Option, none, some, ◌≡◌, refl, arith, eqb, if◌then◌else◌, sym, subst,
}
use grafana_tools.Kube.{done}
use grafana_tools.Kube.Exec.{yields, fails, Outcome, ok, err, panic}
use grafana_tools.Grafana.Client.{Config, Env}
use grafana_tools.Grafana.Builder.{
  Pointer, Builder, new_builder, reconcile, get_grafana_client, unset, build, settle, current, held,
  client_for, is_same, redial,
}
use grafana_tools.Grafana.Builder.Reach.{Step, reconciled, asked, Reach, start, later, Inv}

abbrev pub Starved : {Client : Type 0} → Option Pointer → Outcome (Option Client) → Type 0
Starved none o = o ≡ ok none
Starved (some p) o = o ≡ panic "nil dereference of the configuration"

module _ {Client : Type 0} (env : Env Client) (hash : Config → ℕ) where
  -- What a call for a client does while none was made.
  starved :
      (b : Builder Client) (p : Option Pointer)
      → b.cfg ≡ none
      → ((client_for env p b).0 ≡ b) × Starved p (client_for env p b).1
  starved b none h = (refl, refl)
  starved b (some p) h =
      subst
        (λ last.
          let r = if is_same last p then (b, ok b.client) else redial env p last b in
          (r.0 ≡ b) × (r.1 ≡ panic "nil dereference of the configuration"))
        (sym h) (refl, refl)

  unset-Inv : (b : Builder Client) → Inv env hash b → Inv env hash (unset b)
  unfolding unset
  unset-Inv b i = record {
    unmade = i.unmade;
    hashed = λ p e. ground (arith, e);
    cleared = λ e. refl;
  }

  held-Inv : (b : Builder Client) (c : Config) → Inv env hash b → Inv env hash (held c (hash c) b)
  held-Inv b c i = record {
    unmade = i.unmade;
    hashed = λ p e. ground (arith, e);
    cleared = λ e. ground (arith, e);
  }

  kept-Inv :
      (same : Bool) (b : Builder Client) (c : Config)
      → Inv env hash b
      → Inv env hash (if same then b else held c (hash c) b)
  kept-Inv true b c i = i
  kept-Inv false b c i = held-Inv b c i

  settle-Inv :
      (o : Outcome Config) (b : Builder Client) → Inv env hash b → Inv env hash (settle hash o b).0
  settle-Inv (panic m) b i = i
  settle-Inv (err e) b i = unset-Inv b i
  settle-Inv (ok c) b i = kept-Inv (eqb b.existing (hash c)) b c i

  app-Inv :
      (is_deleted : Bool) (o : Outcome Config) (b : Builder Client)
      → Inv env hash b
      → Inv env hash (if is_deleted then (unset b, ok done) else settle hash o b).0
  app-Inv true o b i = unset-Inv b i
  app-Inv false o b i = settle-Inv o b i

  Step-Inv : {b c : Builder Client} → Step env hash b c → Inv env hash b → Inv env hash c
  unfolding reconcile get_grafana_client
  Step-Inv (reconciled get (fails e)) i = unset-Inv _ i
  Step-Inv (reconciled get (yields app)) i = app-Inv app.is_deleted (build get app) _ i
  Step-Inv {b} asked i = subst (Inv env hash) (sym (starved b (current b) i.unmade).0) i

  pub Reach-Inv :
      {flags : Option Config} {b : Builder Client} → Reach env hash flags b → Inv env hash b
  unfolding new_builder
  Reach-Inv start = record { unmade = refl; hashed = λ p e. ground (arith, e); cleared = λ e. refl }
  Reach-Inv (later r st) = Step-Inv st (Reach-Inv r)

  -- In every state that the builder can come to, a call for a client gives none where neither the default
  -- AppBinding nor the flags configure one, and panics where one of them does.
  pub client-Starved :
      {flags : Option Config} {b : Builder Client}
      → Reach env hash flags b
      → Starved (current b) (get_grafana_client env b).1
  unfolding get_grafana_client
  client-Starved {b = b} r = (starved b (current b) (Reach-Inv r).unmade).1
