-- ===== src/ClientOrg/Pinned.antt =====
-- What the copies of a client organization show.
use grafana_tools.Base.{
  assign, lookup-assign, lookup-assign_other, assign-same, String, Bool, true, false, Option, some,
  List, [], ◌∷◌, ◌++◌, ◌≡◌, ◌≢◌, refl, arith, ◌∙◌, eq_iff, has_suffix-concat, lookup, Dict,
  if◌then◌else◌,
}
use grafana_tools.Kube.{ObjectKey, Error}
use grafana_tools.Kube.Exec.{yields}
use grafana_tools.ClientOrg.{Namespace, monitoring_namespace, src_ref_key, src_hash_key}
use grafana_tools.ClientOrg.Copies.{
  TemplateVar, Board, Kind, Source, is_skipped, pin, pin_all, client_board, copied, turn, skip,
  copies, copy_dashboards, key_text,
}

abbrev marked : String → String → Dict String → Dict String
marked h r m = assign src_hash_key h (assign src_ref_key r m)

lookup-marked : (h r : String) (m : Dict String) → lookup (marked h r m) src_ref_key ≡ some r
lookup-marked h r m =
    lookup-assign_other src_hash_key src_ref_key h (assign src_ref_key r m) refl
    ∙ lookup-assign src_ref_key r m

marked_again : (h r : String) (m : Dict String) → marked h r (marked h r m) ≡ marked h r m
marked_again h r m = rw (assign-same src_ref_key r (marked h r m) (lookup-marked h r m)) (
    assign-same src_hash_key h (marked h r m)
      (lookup-assign src_hash_key h (assign src_ref_key r m)))

module _ {Rest : Type 0} where
  -- A variable called `namespace` is fixed to the client's namespace; any other is as it was.
  abbrev pub PinnedLike : String → List (TemplateVar Rest) → List (TemplateVar Rest) → Type 0
  PinnedLike ns [] [] = Unit
  PinnedLike ns (v ∷ vs) (w ∷ ws) =
      (w.name ≡ v.name)
      × (v.name ≡ "namespace" → (w.type ≡ "constant") × (w.query ≡ ns))
      × (v.name ≢ "namespace" → w ≡ v)
      × PinnedLike ns vs ws
  PinnedLike ns _ _ = ⊥

  pin_all-PinnedLike :
      (ns : String) (vs : List (TemplateVar Rest)) → PinnedLike ns vs (pin_all ns vs)
  unfolding pin_all pin
  pin_all-PinnedLike ns [] = tt
  pin_all-PinnedLike ns (v ∷ vs) = (
    ground arith,
    ground (arith, eq_iff v.name "namespace"),
    ground (arith, eq_iff v.name "namespace"),
    pin_all-PinnedLike ns vs,
  )

  module _ (client_title : String → String) where
    -- The board of a copy has the client's title and as many templating variables, those called
    -- `namespace` fixed to the client's namespace and the others as they were.
    pub client_board-PinnedLike :
        (ns : String) (b : Board Rest)
        → ((client_board client_title ns b).title ≡ client_title b.title)
          × PinnedLike ns b.templating (client_board client_title ns b).templating
    unfolding client_board
    client_board-PinnedLike ns b = (refl, pin_all-PinnedLike ns b.templating)

module _ {Model : Type 0} where
  monitoring_skipped :
      (client_ns : String) (d : Source Model)
      → d.key.namespace ≡ monitoring_namespace client_ns
      → is_skipped d ≡ true
  unfolding is_skipped monitoring_namespace
  monitoring_skipped client_ns d e =
      rw e (ground (arith, has_suffix-concat client_ns "-monitoring"))

  module _ (kind : Kind Model) (hash : Source Model → String) where
    skipped_turn :
        (ns : Namespace) (d : Source Model) → is_skipped d ≡ true → turn kind hash ns d ≡ skip
    unfolding turn
    skipped_turn ns d e = ground (arith, e)

    copies_skipping :
        (ns : Namespace) (before after : List (Source Model)) (d : Source Model)
        → is_skipped d ≡ true
        → copies kind hash ns (before ++ d ∷ after) ≡ copies kind hash ns (before ++ after)
    unfolding copies
    copies_skipping ns [] after d e = rw (skipped_turn ns d e)
    copies_skipping ns (x ∷ before) after d e = rw (copies_skipping ns before after d e)

    -- Dashboards that stand in any client's monitoring namespace, such as the copies made before, have
    -- no part in what is copied: with or without one, wherever it stands in the list, the same copies
    -- are written and the same errors are returned.
    pub copies_stable :
        (put : ObjectKey × Source Model × Model → Option Error) (ns : Namespace)
        (client_ns : String) (before after : List (Source Model)) (d : Source Model)
        → d.key.namespace ≡ monitoring_namespace client_ns
        → copy_dashboards kind hash put ns (yields (before ++ d ∷ after))
          ≡ copy_dashboards kind hash put ns (yields (before ++ after))
    unfolding copy_dashboards
    copies_stable put ns client_ns before after d e =
        rw (copies_skipping ns before after d (monitoring_skipped client_ns d e))

    -- Whatever is copied, onto whatever object, the result is marked as a copy, so that it is not
    -- copied in its turn.
    pub copied-is_skipped :
        (d target : Source Model) (b : Model) (mon_ns : String) (create_op : Bool)
        → is_skipped (copied kind hash d b mon_ns create_op target) ≡ true
    unfolding is_skipped copied
    copied-is_skipped d target b mon_ns create_op = rw (
        lookup-marked (hash d) (key_text d.key)
          (if create_op then d.annotations else target.annotations))

    -- Writing a copy over itself changes nothing.
    pub copied_again :
        (d target : Source Model) (b : Model) (mon_ns : String) (create_op : Bool)
        → copied kind hash d b mon_ns false (copied kind hash d b mon_ns create_op target)
          ≡ copied kind hash d b mon_ns create_op target
    unfolding copied
    copied_again d target b mon_ns create_op = rw (
        marked_again (hash d) (key_text d.key)
          (if create_op then d.annotations else target.annotations))
