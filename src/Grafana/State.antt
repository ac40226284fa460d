-- ===== src/Grafana/State.antt =====
-- `GrafanaState` of grafanadashboard_controller.go and `PersesState` of persesdashboard_controller.go:
-- a fingerprint of an AppBinding's settings, kept in one package variable.
pub mod History
use grafana_tools.Base.{
  String, ℕ, Option, none, some, List, [], ◌∷◌, ◌&&◌, ◌==◌, eqb, if◌then◌else◌, concat, itoa,
}
use grafana_tools.Kube.{ObjectKey}
use grafana_tools.Kube.Exec.{Answer, yields, fails}

-- `openvizapi.GrafanaConfiguration` as far as it is read; a missing folder id is `none`.
pub record GrafanaConfiguration : Type 0 where
  pub datasource : String
  pub folder_id : Option ℕ

pub record PersesConfiguration : Type 0 where
  pub datasource : String
  pub project_name : String
  pub project_id : ℕ
  pub folder_name : String
  pub folder_id : ℕ

-- An AppBinding: the parameters, where there are any, as `json.Unmarshal` reads them as each
-- configuration, and what its method `URL` answers.
pub record AppBinding : Type 0 where
  pub key : ObjectKey
  pub uid : String
  pub generation : ℕ
  pub grafana_parameters : Option (Answer GrafanaConfiguration)
  pub perses_parameters : Option (Answer PersesConfiguration)
  pub url : Answer String

pub record StateKey : Type 0 where
  pub uid : String
  pub generation : ℕ

abbrev pub state_key : AppBinding → StateKey
state_key ab = record { uid = ab.uid; generation = ab.generation }

-- The map `stateMap`.
abbrev pub StateMap : Type 0
StateMap = List (StateKey × Answer String)

unfoldable pub remembered : StateKey → StateMap → Option (Answer String)
remembered k [] = none
remembered k ((j, v) ∷ m) =
    if (j.uid == k.uid) && eqb j.generation k.generation then some v else remembered k m

abbrev pub no_grafana_configuration : GrafanaConfiguration
no_grafana_configuration = record { datasource = ""; folder_id = none }

abbrev pub no_perses_configuration : PersesConfiguration
no_perses_configuration = record {
  datasource = "";
  project_name = "";
  project_id = 0;
  folder_name = "";
  folder_id = 0;
}

-- A configuration decoded into a fresh value; one that is not given keeps the zero value.
abbrev pub configured : {C : Type 0} → C → Option (Answer C) → Answer C
configured zero_value none = yields zero_value
configured zero_value (some a) = a

abbrev pub or_zero : Option ℕ → ℕ
or_zero none = 0
or_zero (some n) = n

abbrev pub joined : List String → String
joined [] = ""
joined (s ∷ []) = s
joined (s ∷ r) = concat s (concat "," (joined r))

-- The parameter is the hash: SHA-256 in URL-safe base 64.
module _ (hash : String → String) where
  abbrev pub fingerprint :
      {C : Type 0} → Answer C → Answer String → (String → C → List String) → Answer String
  fingerprint (fails e) url parts = fails e
  fingerprint (yields c) (fails e) parts = fails e
  fingerprint (yields c) (yields u) parts = yields (hash (joined (parts u c)))

  unfoldable pub compute_grafana : AppBinding → Answer String
  compute_grafana ab =
      fingerprint (configured no_grafana_configuration ab.grafana_parameters) ab.url
        λ u c. u ∷ c.datasource ∷ itoa (or_zero c.folder_id) ∷ []

  unfoldable pub compute_perses : AppBinding → Answer String
  compute_perses ab =
      fingerprint (configured no_perses_configuration ab.perses_parameters) ab.url λ u c.
        u
        ∷ c.datasource
        ∷ c.project_name
        ∷ itoa c.project_id
        ∷ c.folder_name
        ∷ itoa c.folder_id
        ∷ []

  abbrev pub memo :
      AppBinding → Answer String → StateMap → Option (Answer String) → StateMap × Answer String
  memo ab fresh m (some r) = (m, r)
  memo ab fresh m none = ((state_key ab, fresh) ∷ m, fresh)

  unfoldable pub grafana_state : AppBinding → StateMap → StateMap × Answer String
  unfolding remembered compute_grafana
  grafana_state ab m = memo ab (compute_grafana ab) m (remembered (state_key ab) m)

  unfoldable pub perses_state : AppBinding → StateMap → StateMap × Answer String
  unfolding remembered compute_perses
  perses_state ab m = memo ab (compute_perses ab) m (remembered (state_key ab) m)
