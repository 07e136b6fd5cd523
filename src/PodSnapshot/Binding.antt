-- ===== src/PodSnapshot/Binding.antt =====
-- The work order that the unbound path creates and binds.
use snapshot.Prelude.{
  Str, ◌≡◌, ◌≢◌, refl, ◌⊎◌, inl, inr, Bool, true, false, Option, none, some, [], ◌∷◌, str_eq_iff,
  str_eq_refl, arith, Bool-cases,
}
use snapshot.Kube.Prog.{Trace, Holds, ends, calls, program_rules, ◌>>=◌}
use snapshot.Kube.Condition.{Message, Meta}
use snapshot.Kube.Objects.{
  Pod, PodSnapshot, PodSnapshotContent, Reply, found, error, ApiError, not_found, already_exists,
  other_error,
}
use snapshot.PodSnapshot.Client.{
  Op, Ans, update_status, create_content, get_content, get_pod, Outcome, Action,
}
use snapshot.PodSnapshot.Source.{Rejection, unscheduled, stale_pod_ref, validate_source_pod}
use snapshot.PodSnapshot.Status.{
  mark_failed, mark_pending, set_condition, write_if_changed, record_pending_reason,
  fail_pod_snapshot,
}
use snapshot.PodSnapshot.Content.{
  PodSnapshotReconciler, artifact_cleanup_finalizer, backlinks, build_pod_snapshot_content,
  pod_snapshot_content_name, adopt, after_create, ensure_pod_snapshot_content, bind_content,
  after_ensure, capture_validated, after_validate, capture_from_pod, capture_from_source_pod,
}
use snapshot.PodSnapshot.Mirror.{source_key}
use snapshot.PodSnapshot.Writes.{AnyEnd}

module _ (m : Meta) (sr : PodSnapshotReconciler) (snap : PodSnapshot) where
  -- A work order for a pod: named for the PodSnapshot, linked back to it, addressed to the pod's
  -- node, pinned to the pod's UID, and guarded by the artifact finalizer.
  pub record IsWorkOrder (pod : Pod) (c : PodSnapshotContent) : Type 0 where
    pub named : c.name ≡ pod_snapshot_content_name snap
    pub linked : backlinks snap c ≡ true
    pub addressed : c.node_label ≡ pod.node_name
    pub on_node : c.source_node ≡ pod.node_name
    pub pinned : c.source.uid ≡ pod.uid
    pub guarded : c.finalizers ≡ artifact_cleanup_finalizer ∷ []

  -- The pod is scheduled, and it is the one that the PodSnapshot pins, if it pins one.
  pub record IsSource (pod : Pod) : Type 0 where
    pub scheduled : pod.node_name ≢ []
    pub wanted : (snap.source.uid ≡ []) ⊎ (pod.uid ≡ snap.source.uid)

  -- A content is created as the work order of the pod that was just read.
  pub data Ordered (c : PodSnapshotContent) : Trace Op Ans → Type 0 where
    ordered :
        {pod : Pod} {t : Trace Op Ans}
        → IsSource pod
        → IsWorkOrder pod c
        → Ordered c ((get_pod (source_key snap), found pod) ∷ t)

  -- A binding names what was just created, or what was there under that name and links back.
  pub data Bindable : Option Str → Trace Op Ans → Type 0 where
    still : {t : Trace Op Ans} → Bindable snap.bound t
    created :
        {c : PodSnapshotContent} {t : Trace Op Ans}
        → Bindable (some c.name) ((create_content c, none) ∷ t)
    adopted :
        {c d : PodSnapshotContent} {t : Trace Op Ans}
        → backlinks snap d ≡ true
        → Bindable
            (some d.name)
            ((get_content c.name, found d) ∷ (create_content c, some already_exists) ∷ t)

  abbrev pub BindsOwn : Trace Op Ans → Op → Type 0
  BindsOwn t (create_content c) = Ordered c t
  BindsOwn t (update_status s) = Bindable s.bound t
  BindsOwn t _ = Unit

  abbrev Own : Trace Op Ans → Action Outcome → Type 0
  Own t p = Holds BindsOwn AnyEnd t p

  fail-Own :
      (reason : Str) (cause : Message) (t : Trace Op Ans)
      → Own t (fail_pod_snapshot m snap reason cause)
  unfolding fail_pod_snapshot mark_failed set_condition
  fail-Own reason cause t = calls tt (λ _. calls still (λ e. ends tt))

  create_then_bind-Own :
      (c : PodSnapshotContent) (r : Option ApiError) (t : Trace Op Ans)
      → Own ((create_content c, r) ∷ t) (after_create snap c r >>= after_ensure m snap)
  unfolding after_create after_ensure bind_content adopt
  create_then_bind-Own c none t = calls created (λ e. ends tt)
  create_then_bind-Own c (some already_exists) t = calls tt (λ r. adopted-Own c r t)
    where
      adopted-Own :
          (c : PodSnapshotContent) (r : Reply PodSnapshotContent) (t : Trace Op Ans)
          → Own
              ((get_content c.name, r) ∷ (create_content c, some already_exists) ∷ t)
              (after_ensure m snap (adopt snap r))
      adopted-Own c (error e) t = ends tt
      adopted-Own c (found d) t = elim (Bool-cases (backlinks snap d)) [
        | inl b ↦ rw b (calls (adopted b) (λ e. ends tt))
        | inr b ↦ rw b (fail-Own _ _ _)
      ]
  create_then_bind-Own c (some not_found) t = calls tt (λ _. ends tt)
  create_then_bind-Own c (some (other_error e)) t = calls tt (λ _. ends tt)

  build-IsWorkOrder :
      (pod : Pod)
      → snap.uid ≢ []
      → IsWorkOrder pod (build_pod_snapshot_content sr snap (pod_snapshot_content_name snap) pod)
  unfolding build_pod_snapshot_content backlinks
  build-IsWorkOrder pod h = record {
    named = refl;
    linked = ground (
      arith,
      str_eq_refl snap.namespace,
      str_eq_refl snap.name,
      str_eq_refl snap.uid,
      str_eq_iff snap.uid [],
    );
    addressed = refl;
    on_node = refl;
    pinned = refl;
    guarded = refl;
  }

  validate-IsSource : (pod : Pod) → validate_source_pod snap pod ≡ none → IsSource pod
  unfolding validate_source_pod
  validate-IsSource pod h = ground (
    arith,
    str_eq_iff snap.source.uid [],
    str_eq_iff pod.uid snap.source.uid,
    str_eq_iff pod.node_name [],
  )

  pending-Own :
      (step : Str) (p : PodSnapshot × Bool) (t : Trace Op Ans)
      → p.0.bound ≡ snap.bound
      → Own t (write_if_changed step p)
  unfolding write_if_changed
  pending-Own step (s, true) t h = calls (rw h still) (λ e. ends tt)
  pending-Own step (s, false) t h = ends tt

  module _ (has_uid : snap.uid ≢ []) where
    order-Own :
        (pod : Pod) (t : Trace Op Ans)
        → IsSource pod
        → Own ((get_pod (source_key snap), found pod) ∷ t) (
            ensure_pod_snapshot_content sr snap (pod_snapshot_content_name snap) pod
            >>= after_ensure m snap)
    unfolding ensure_pod_snapshot_content
    order-Own pod t h =
        calls (ordered h (build-IsWorkOrder pod has_uid)) (λ e. create_then_bind-Own _ e _)

    capture_validated-Own :
        (pod : Pod) (t : Trace Op Ans)
        → IsSource pod
        → Own ((get_pod (source_key snap), found pod) ∷ t) (capture_validated m sr snap pod)
    unfolding capture_validated
    capture_validated-Own pod t h = search (program_rules, fail-Own, order-Own)

    after_validate-Own :
        (pod : Pod) (r : Option Rejection) (t : Trace Op Ans)
        → validate_source_pod snap pod ≡ r
        → Own ((get_pod (source_key snap), found pod) ∷ t) (after_validate m sr snap pod r)
    unfolding after_validate record_pending_reason mark_pending set_condition
    after_validate-Own pod none t h = capture_validated-Own pod t (validate-IsSource pod h)
    after_validate-Own pod (some unscheduled) t h = pending-Own _ _ _ refl
    after_validate-Own pod (some (stale_pod_ref cause)) t h = fail-Own _ cause _

    -- Whatever the API server answers, the unbound path of Reconcile creates a content only as the
    -- work order of the pod it has just read, which is scheduled and is the pinned one, and binds
    -- only a content that it created or one found under that name that links back to the
    -- PodSnapshot; every other status it writes leaves the binding as it was.
    pub capture_from_source_pod-BindsOwn :
        Holds BindsOwn AnyEnd [] (capture_from_source_pod m sr snap)
    unfolding capture_from_source_pod capture_from_pod
    capture_from_source_pod-BindsOwn = calls tt (λ r. replied r)
      where
        replied :
            (r : Reply Pod)
            → Own ((get_pod (source_key snap), r) ∷ []) (capture_from_pod m sr snap r)
        replied (found pod) = after_validate-Own pod _ [] refl
        replied (error not_found) = fail-Own _ _ _
        replied (error already_exists) = ends tt
        replied (error (other_error e)) = ends tt
