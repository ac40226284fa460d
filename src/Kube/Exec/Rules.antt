-- ===== src/Kube/Exec/Rules.antt =====
-- Steps that make no call that changes something, as a function of the calls made so far: what is left
-- of such a step in a proof is what it gives.
use grafana_tools.Base.{List, ◌≡◌, ap, fun_ext}
use grafana_tools.Kube.Exec.{Outcome, Exec}

abbrev pub IsQuiet : {E A : Type 0} → Exec E A → Type 0
IsQuiet {E} m = (t : List E) → (m t).1 ≡ t

abbrev pub reading : {E A : Type 0} → (List E → Outcome A) → Exec E A
reading o t = (o t, t)

pub quiet_reading : {E A : Type 0} (m : Exec E A) → IsQuiet m → m ≡ reading (λ t. (m t).0)
quiet_reading m h = fun_ext λ t. ap (λ (x : List _). ((m t).0, x)) (h t)
