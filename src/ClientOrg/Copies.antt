-- ===== src/ClientOrg/Copies.antt =====
-- dashboard.go: which dashboards of Grafana and of Perses are copied into a client's monitoring
-- namespace, and what a copy is.
use grafana_tools.Base.{
  assign, String, Bool, Option, none, some, List, [], ◌∷◌, ◌||◌, ◌==◌, is_some, Dict, lookup,
  has_suffix, if◌then◌else◌, concat,
}
use grafana_tools.Kube.{ObjectKey, Error, bad_request, failed, message}
use grafana_tools.Kube.Exec.{Answer, yields, fails, Outcome, ok, err, panic}
use grafana_tools.ClientOrg.{
  Namespace, src_ref_key, src_hash_key, ab_client_org_grafana, ab_client_org_perses,
  monitoring_namespace,
}

-- `sdk.TemplateVar` as far as it is read or written; `rest` stands for its other fields.
pub record TemplateVar (Rest : Type 0) : Type 0 where
  pub name : String
  pub type : String
  pub query : String
  pub rest : Rest

-- `sdk.Board` likewise.
pub record Board (Rest : Type 0) : Type 0 where
  pub title : String
  pub templating : List (TemplateVar Rest)
  pub rest : Rest

-- `v1.Dashboard` of Perses likewise; the display is a pointer, and may be nil.
pub record PersesBoard (Rest : Type 0) : Type 0 where
  pub display_name : Option String
  pub rest : Rest

-- A GrafanaDashboard or PersesDashboard: the model is what `json.Unmarshal` reads of it, where there
-- is one, and the reference is `GrafanaRef` or `PersesRef`.
pub record Source (Model : Type 0) : Type 0 where
  pub key : ObjectKey
  pub labels : Dict String
  pub annotations : Dict String
  pub model : Option (Answer Model)
  pub reference : Option ObjectKey
  pub templatize : Option Bool

-- What is particular to a kind: its name in errors, the AppBinding that the copies refer to, and how a
-- model is changed for a namespace, where that does not dereference nil.
pub record Kind (Model : Type 0) : Type 0 where
  pub resource : String
  pub binding : String
  pub adapt : String → Model → Option Model

abbrev pub key_text : ObjectKey → String
key_text k = concat k.namespace (concat "/" k.name)

module _ {Rest : Type 0} where
  unfoldable pub pin : String → TemplateVar Rest → TemplateVar Rest
  pin ns v = if v.name == "namespace" then record v { type = "constant"; query = ns } else v

  unfoldable pub pin_all : String → List (TemplateVar Rest) → List (TemplateVar Rest)
  unfolding pin
  pin_all ns [] = []
  pin_all ns (v ∷ vs) = pin ns v ∷ pin_all ns vs

  -- `client_title` is `clustermeta.ClientDashboardTitle`.
  module _ (client_title : String → String) where
    unfoldable pub client_board : String → Board Rest → Board Rest
    unfolding pin_all
    client_board ns b = record b {
      title = client_title b.title;
      templating = pin_all ns b.templating;
    }

    abbrev pub retitled : PersesBoard Rest → Option String → Option (PersesBoard Rest)
    retitled b none = none
    retitled b (some title) = some (record b { display_name = some (client_title title) })

    unfoldable pub grafana_kind : Kind (Board Rest)
    unfolding client_board
    grafana_kind = record {
      resource = "GrafanaDashboard";
      binding = ab_client_org_grafana;
      adapt = λ ns b. some (client_board ns b);
    }

    unfoldable pub perses_kind : Kind (PersesBoard Rest)
    perses_kind = record {
      resource = "PersesDashboard";
      binding = ab_client_org_perses;
      adapt = λ ns b. retitled b b.display_name;
    }

-- What one turn of the loop decides: to leave the dashboard, to end the loop, or to write a copy.
pub data Turn (Model : Type 0) : Type 0 where
  skip : Turn Model
  stop : Outcome (Unit {0}) → Turn Model
  write : ObjectKey → Source Model → Model → Turn Model

-- What the loop hands to `CreateOrPatch`: the key, and what `copied` takes.
abbrev pub Write : Type 0 → Type 0
Write Model = ObjectKey × Source Model × Model

module _ {Model : Type 0} where
  unfoldable pub is_skipped : Source Model → Bool
  unfolding lookup has_suffix
  is_skipped d =
      is_some (lookup d.annotations src_ref_key) || has_suffix d.key.namespace "-monitoring"

  -- `hash` is `meta.ObjectHash`.
  module _ (kind : Kind Model) (hash : Source Model → String) where
    -- The function given to `CreateOrPatch`: on creation labels and annotations are the source's.
    unfoldable pub copied : Source Model → Model → String → Bool → Source Model → Source Model
    copied d b mon_ns create_op target =
        let annotations0 = if create_op then d.annotations else target.annotations in
        record {
          key = target.key;
          labels = if create_op then d.labels else target.labels;
          annotations =
              assign src_hash_key (hash d) (assign src_ref_key (key_text d.key) annotations0);
          model = some (yields b);
          reference = some (record { namespace = mon_ns; name = kind.binding });
          templatize = d.templatize;
        }

    abbrev pub adapted : Source Model → Namespace → Option Model → Turn Model
    adapted d ns none = stop (panic "nil dereference of the display")
    adapted d ns (some b) =
        write (record { namespace = monitoring_namespace ns.name; name = d.key.name }) d b

    -- Both loops name the kind GrafanaDashboard in the second error.
    abbrev pub decided : Source Model → Namespace → Option (Answer Model) → Turn Model
    decided d ns none = stop (
        err (
          bad_request
            (concat kind.resource (concat " " (concat (key_text d.key) " is missing a model")))))
    decided d ns (some (fails e)) = stop (
        err (
          failed (
            concat "failed to unmarshal model for GrafanaDashboard "
              (concat (key_text d.key) (concat ", reason: " (message e))))))
    decided d ns (some (yields b)) = adapted d ns (kind.adapt ns.name b)

    unfoldable pub turn : Namespace → Source Model → Turn Model
    unfolding is_skipped
    turn ns d = if is_skipped d then skip else decided d ns d.model

    abbrev pub next :
        Turn Model
        → List (Write Model) × Outcome (Unit {0})
        → List (Write Model) × Outcome (Unit {0})
    next skip rest = rest
    next (stop o) rest = ([], o)
    next (write k d b) (ws, o) = ((k, d, b) ∷ ws, o)

    -- The loop: the copies that are written, in order, and how it ends.
    unfoldable pub copies :
        Namespace → List (Source Model) → List (Write Model) × Outcome (Unit {0})
    unfolding turn
    copies ns [] = ([], ok tt)
    copies ns (d ∷ ds) = next (turn ns d) (copies ns ds)

    abbrev pub soft_errors : (Write Model → Option Error) → List (Write Model) → List Error
    soft_errors put [] = []
    soft_errors put (w ∷ ws) = elim (put w) [
      | none ↦ soft_errors put ws
      | some e ↦ e ∷ soft_errors put ws
    ]

    -- The errors of the writes are lost where the loop ends early.
    abbrev pub replied :
        (Write Model → Option Error)
        → List (Write Model) × Outcome (Unit {0})
        → List (Write Model) × Outcome (List Error)
    replied put (ws, ok u) = (ws, ok (soft_errors put ws))
    replied put (ws, err e) = (ws, err e)
    replied put (ws, panic m) = (ws, panic m)

    -- `copyGrafanaDashboards` and `copyPersesDashboards`, with the writes made: the dashboards listed
    -- are an argument, and the error, if any, with which `CreateOrPatch` answers a write.
    unfoldable pub copy_dashboards :
        (Write Model → Option Error)
        → Namespace
        → Answer (List (Source Model))
        → List (Write Model) × Outcome (List Error)
    unfolding copies
    copy_dashboards put ns (fails e) = ([], err e)
    copy_dashboards put ns (yields ds) = replied put (copies ns ds)
