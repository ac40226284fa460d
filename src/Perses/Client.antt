-- ===== src/Perses/Client.antt =====
-- pkg/perses/client.go: which AppBinding a reference means.
use grafana_tools.Base.{String, Option, none, some, List, [], ◌∷◌, concat}
use grafana_tools.Kube.{
  ObjectKey, Error, not_found, bad_request, forbidden, unavailable, internal, failed,
}
use grafana_tools.Kube.Exec.{Answer, yields, fails}
use grafana_tools.Grafana.State.{AppBinding}

abbrev pub key_text : ObjectKey → String
key_text k = concat k.namespace (concat "/" k.name)

-- `errors.Wrapf`: the kind of the error is kept.
unfoldable pub wrapped : String → Error → Error
wrapped m (not_found e) = not_found (concat m (concat ": " e))
wrapped m (bad_request e) = bad_request (concat m (concat ": " e))
wrapped m (forbidden e) = forbidden (concat m (concat ": " e))
wrapped m (unavailable e) = unavailable (concat m (concat ": " e))
wrapped m (internal e) = internal (concat m (concat ": " e))
wrapped m (failed e) = failed (concat m (concat ": " e))

abbrev pub names_of : List AppBinding → String
names_of [] = ""
names_of (ab ∷ []) = key_text ab.key
names_of (ab ∷ r) = concat (key_text ab.key) (concat "," (names_of r))

abbrev pub single : List AppBinding → Answer AppBinding
single [] = fails (not_found "no default Perses appbinding found.")
single (ab ∷ []) = yields ab
single abs = fails (
    bad_request
      (concat "multiple Perses appbindings " (concat (names_of abs) " are marked default")))

abbrev pub fetched : ObjectKey → Answer AppBinding → Answer AppBinding
fetched k (yields ab) = yields ab
fetched k (fails e) = fails (wrapped (concat "failed to fetch AppBinding " (key_text k)) e)

abbrev pub defaulted : Answer (List AppBinding) → Answer AppBinding
defaulted (yields abs) = single abs
defaulted (fails e) = fails e

-- `GetPerses`: the object that is referred to, or the one AppBinding marked as the default. The
-- arguments are the client's `Get` and its `List` by the default's field.
unfoldable pub get_perses :
    Option ObjectKey
    → (ObjectKey → Answer AppBinding)
    → Answer (List AppBinding)
    → Answer AppBinding
unfolding wrapped
get_perses (some k) get listed = fetched k (get k)
get_perses none get listed = defaulted listed
