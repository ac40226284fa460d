-- ===== src/Grafana/Builder/Follows.antt =====
-- Which configuration the builder holds.
use grafana_tools.Base.{
  String, ℕ, Bool, true, false, Option, none, some, ◌≡◌, ◌≢◌, refl, arith, Dict, eqb, if◌then◌else◌,
}
use grafana_tools.Kube.{ObjectKey}
use grafana_tools.Kube.Exec.{Answer, yields, ok}
use grafana_tools.Grafana.Client.{App, Config, Env}
use grafana_tools.Grafana.Builder.{Pointer, Builder, reconcile, build, held}
use grafana_tools.Grafana.Builder.Reach.{Reach, Inv}
use grafana_tools.Grafana.Builder.Never.{Reach-Inv}

module _ {Client : Type 0} (env : Env Client) (hash : Config → ℕ) where
  abbrev pub Holds : ℕ → Option Pointer → Type 0
  Holds h none = ⊥
  Holds h (some p) = hash p.config ≡ h

  kept :
      (b : Builder Client) (h : ℕ) (a : Option Pointer)
      → Inv env hash b
      → b.app_cfg ≡ a
      → b.existing ≡ h
      → h ≢ 0
      → Holds h a
  kept b h none i e same nonzero = absurd (nonzero (ground (arith, i.cleared e, same)))
  kept b h (some p) i e same nonzero = ground (arith, i.hashed p e, same)

  settled :
      (same : Bool) (b : Builder Client) (c : Config)
      → Inv env hash b
      → eqb b.existing (hash c) ≡ same
      → hash c ≢ 0
      → Holds (hash c) (if same then b else held c (hash c) b).app_cfg
  settled true b c i e nonzero = kept b (hash c) b.app_cfg i refl (ground (arith, e)) nonzero
  settled false b c i e nonzero = refl

  -- In every state that the builder can come to: after a reconcile of a live AppBinding whose configuration
  -- can be built, it holds a configuration with the fingerprint of that one, other than 0, with which it
  -- marks that it holds none.
  pub reconcile-Holds :
      {flags : Option Config} {b : Builder Client}
      → Reach env hash flags b
      → (get : ObjectKey → Answer (Dict String)) (app : App) (c : Config) → app.is_deleted ≡ false
      → build get app ≡ ok c
      → hash c ≢ 0
      → Holds (hash c) (reconcile hash get (yields app) b).0.app_cfg
  unfolding reconcile
  reconcile-Holds {b = b} r get app c live built nonzero =
      rw (live, built) (settled (eqb b.existing (hash c)) b c (Reach-Inv env hash r) refl nonzero)
