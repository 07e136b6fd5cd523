-- ===== src/PodSnapshot/Writes.antt =====
-- Every status that Reconcile writes is a mark or a binding of the PodSnapshot that it read.
use snapshot.Prelude.{
  Str, ◌≡◌, refl, Bool, true, false, ◌&&◌, Option, none, some, [], if◌then◌else◌,
}
use snapshot.Kube.Prog.{Trace, Holds, ends, calls, program_rules, ◌>>=◌}
use snapshot.Kube.Condition.{Condition, Message, Meta, MetaLaws}
use snapshot.Kube.Finalizer.{ControllerUtil}
use snapshot.Kube.Objects.{
  Pod, PodSnapshot, PodSnapshotContent, Reply, found, error, not_found, already_exists, other_error,
  ApiError,
}
use snapshot.PodSnapshot.Client.{Op, Ans, update_status, Outcome, Action}
use snapshot.PodSnapshot.Source.{Rejection, unscheduled, stale_pod_ref}
use snapshot.PodSnapshot.Status.{
  mark_ready, mark_failed, mark_pending, write_if_changed, record_pending_reason, fail_pod_snapshot,
  propagate_status, mirrored, mirrored_status, is_content_succeeded, is_content_failed,
}
use snapshot.PodSnapshot.Content.{
  PodSnapshotReconciler, Ensured, ensured, conflicting, not_ensured, after_ensure, bind_content,
  capture_validated, after_validate, capture_from_pod, capture_from_source_pod, after_create, adopt,
  ensure_pod_snapshot_content,
}
use snapshot.PodSnapshot.Mirror.{
  wait_or_fail, fail_or_wait, resolve_source_failure, resolve_with_pod, resolve_with_content,
  after_read_pod, confirm_pending_capture_terminal, unless_failure, with_cached_pod,
  resolve_pending_bound_content, mirror_content, mirror_bound_content,
}
use snapshot.PodSnapshot.Reconcile.{
  after_confirm, after_delete, delete_bound, handle_delete, add_finalizer, drop_finalizer,
  reconcile_active, reconcile_found,
}
use snapshot.PodSnapshot.Conditions.{
  IsCoherent, mark_ready-truth, mark_failed-truth, mark_pending-truth,
}

&&-false : (b : Bool) → (b && false) ≡ false
&&-false true = refl
&&-false false = refl

-- The condition that a status write must meet.
abbrev pub StatusWrites : (PodSnapshot → Type 0) → Trace Op Ans → Op → Type 0
StatusWrites Q t (update_status s) = Q s
StatusWrites Q t _ = Unit

abbrev pub AnyEnd : Trace Op Ans → Outcome → Type 0
AnyEnd t o = Unit

-- What the reconciler may write of the snapshot that it read.
pub record Writable (m : Meta) (snap : PodSnapshot) (Q : PodSnapshot → Type 0) : Type 0 where
  pub at_ready : (reason : Str) (message : Message) → Q (mark_ready m snap reason message).0
  pub at_failed : (reason : Str) (message : Message) → Q (mark_failed m snap reason message).0
  pub at_pending : (reason : Str) (message : Message) → Q (mark_pending m snap reason message).0
  pub unchanged : Q snap
  pub at_bound : (name : Str) → Q (record snap { bound = some name })

module _ (m : Meta) (snap : PodSnapshot) (Q : PodSnapshot → Type 0) (w : Writable m snap Q) where
  abbrev Writes : Trace Op Ans → Action Outcome → Type 0
  Writes t p = Holds (StatusWrites Q) AnyEnd t p

  write_if_changed-Writes :
      (step : Str) (p : PodSnapshot × Bool) (t : Trace Op Ans)
      → Q p.0
      → Writes t (write_if_changed step p)
  unfolding write_if_changed
  write_if_changed-Writes step (s, true) t q = calls q (λ e. ends tt)
  write_if_changed-Writes step (s, false) t q = ends tt

  fail-Writes :
      (reason : Str) (cause : Message) (t : Trace Op Ans)
      → Writes t (fail_pod_snapshot m snap reason cause)
  unfolding fail_pod_snapshot
  fail-Writes reason cause t = calls tt (λ _. calls (w.at_failed reason cause) (λ e. ends tt))

  Q-if : (b : Bool) (p q : PodSnapshot × Bool) → Q p.0 → Q q.0 → Q (if b then p else q).0
  Q-if true p q hp hq = hp
  Q-if false p q hp hq = hq

  Q-mirrored :
      (o : Option Condition) (mark : Str → Message → PodSnapshot × Bool)
      → ((reason : Str) (message : Message) → Q (mark reason message).0)
      → Q (mirrored o mark (snap, false)).0
  Q-mirrored none mark h = w.unchanged
  Q-mirrored (some c) mark h = h c.reason c.message

  mirrored_status-Q : (content : PodSnapshotContent) → Q (mirrored_status m snap content).0
  unfolding mirrored_status
  mirrored_status-Q content =
      Q-if (is_content_succeeded m content) _ _ (Q-mirrored _ _ w.at_ready)
        (Q-if (is_content_failed m content) _ _ (Q-mirrored _ _ w.at_failed) (w.at_pending _ _))

  propagate-Writes :
      (content : PodSnapshotContent) (t : Trace Op Ans) → Writes t (propagate_status m snap content)
  unfolding propagate_status
  propagate-Writes content t =
      write_if_changed-Writes _ (mirrored_status m snap content) t (mirrored_status-Q content)

  fail_or_wait-Writes :
      (pod : Pod) (reason : Str) (cause : Message) (t : Trace Op Ans)
      → Writes t (fail_or_wait m snap pod reason cause)
  unfolding fail_or_wait wait_or_fail
  fail_or_wait-Writes pod reason cause t = search (program_rules, fail-Writes)

  resolve_source_failure-Writes :
      (content : PodSnapshotContent) (pod : Pod) (f : Option (Str × Message)) (t : Trace Op Ans)
      → Writes t (resolve_source_failure m snap content pod f)
  unfolding resolve_source_failure
  resolve_source_failure-Writes content pod none t = propagate-Writes content t
  resolve_source_failure-Writes content pod (some (reason, cause)) t =
      fail_or_wait-Writes pod reason cause t

  resolve_with_pod-Writes :
      (content : PodSnapshotContent) (r : Reply Pod) (t : Trace Op Ans)
      → Writes t (resolve_with_pod m snap content r)
  unfolding resolve_with_pod
  resolve_with_pod-Writes content (found pod) t = resolve_source_failure-Writes content pod _ t
  resolve_with_pod-Writes content (error e) t = fail-Writes _ _ t

  resolve_with_content-Writes :
      (p : Reply Pod) (r : Reply PodSnapshotContent) (t : Trace Op Ans)
      → Writes t (resolve_with_content m snap p r)
  unfolding resolve_with_content
  resolve_with_content-Writes p (error e) t = ends tt
  resolve_with_content-Writes p (found content) t =
      search (program_rules, fail-Writes, propagate-Writes, resolve_with_pod-Writes)

  after_read_pod-Writes :
      (name : Str) (r : Reply Pod) (t : Trace Op Ans) → Writes t (after_read_pod m snap name r)
  unfolding after_read_pod
  after_read_pod-Writes name (found pod) t =
      calls tt (λ r. resolve_with_content-Writes (found pod) r _)
  after_read_pod-Writes name (error not_found) t =
      calls tt (λ r. resolve_with_content-Writes (error not_found) r _)
  after_read_pod-Writes name (error already_exists) t = ends tt
  after_read_pod-Writes name (error (other_error e)) t = ends tt

  confirm-Writes :
      (cached : PodSnapshotContent) (t : Trace Op Ans)
      → Writes t (confirm_pending_capture_terminal m snap cached)
  unfolding confirm_pending_capture_terminal
  confirm-Writes cached t = calls tt (λ r. after_read_pod-Writes cached.name r _)

  unless_failure-Writes :
      (cached : PodSnapshotContent) (f : Option (Str × Message)) (t : Trace Op Ans)
      → Writes t (unless_failure m snap cached f)
  unless_failure-Writes cached none t = propagate-Writes cached t
  unless_failure-Writes cached (some _) t = confirm-Writes cached t

  with_cached_pod-Writes :
      (cached : PodSnapshotContent) (r : Reply Pod) (t : Trace Op Ans)
      → Writes t (with_cached_pod m snap cached r)
  unfolding with_cached_pod
  with_cached_pod-Writes cached (found pod) t = unless_failure-Writes cached _ t
  with_cached_pod-Writes cached (error not_found) t = confirm-Writes cached t
  with_cached_pod-Writes cached (error already_exists) t = ends tt
  with_cached_pod-Writes cached (error (other_error e)) t = ends tt

  mirror_content-Writes :
      (r : Reply PodSnapshotContent) (t : Trace Op Ans) → Writes t (mirror_content m snap r)
  unfolding mirror_content resolve_pending_bound_content
  mirror_content-Writes (error e) t = ends tt
  mirror_content-Writes (found content) t =
      search (program_rules, fail-Writes, propagate-Writes, with_cached_pod-Writes)

  pub mirror-Writes : (name : Str) (t : Trace Op Ans) → Writes t (mirror_bound_content m snap name)
  unfolding mirror_bound_content
  mirror-Writes name t = calls tt (λ r. mirror_content-Writes r _)

  after_ensure-Writes : (r : Ensured) (t : Trace Op Ans) → Writes t (after_ensure m snap r)
  unfolding after_ensure bind_content
  after_ensure-Writes (ensured c) t = calls (w.at_bound c.name) (λ e. ends tt)
  after_ensure-Writes (conflicting cause) t = fail-Writes _ cause t
  after_ensure-Writes (not_ensured step e) t = ends tt

  create_then_bind-Writes :
      (c : PodSnapshotContent) (r : Option ApiError) (t : Trace Op Ans)
      → Writes t (after_create snap c r >>= after_ensure m snap)
  unfolding after_create
  create_then_bind-Writes c none t = after_ensure-Writes (ensured c) t
  create_then_bind-Writes c (some already_exists) t =
      calls tt (λ r. after_ensure-Writes (adopt snap r) _)
  create_then_bind-Writes c (some not_found) t =
      calls tt (λ _. after_ensure-Writes (not_ensured _ not_found) _)
  create_then_bind-Writes c (some (other_error e)) t =
      calls tt (λ _. after_ensure-Writes (not_ensured _ (other_error e)) _)

  module _ (sr : PodSnapshotReconciler) where
    capture_validated-Writes :
        (pod : Pod) (t : Trace Op Ans) → Writes t (capture_validated m sr snap pod)
    unfolding capture_validated ensure_pod_snapshot_content
    capture_validated-Writes pod t = search (program_rules, fail-Writes, create_then_bind-Writes)

    after_validate-Writes :
        (pod : Pod) (r : Option Rejection) (t : Trace Op Ans)
        → Writes t (after_validate m sr snap pod r)
    unfolding after_validate record_pending_reason
    after_validate-Writes pod none t = capture_validated-Writes pod t
    after_validate-Writes pod (some unscheduled) t =
        write_if_changed-Writes _ (mark_pending m snap _ _) t (w.at_pending _ _)
    after_validate-Writes pod (some (stale_pod_ref cause)) t = fail-Writes _ cause t

    capture_from_pod-Writes :
        (r : Reply Pod) (t : Trace Op Ans) → Writes t (capture_from_pod m sr snap r)
    unfolding capture_from_pod
    capture_from_pod-Writes (found pod) t = after_validate-Writes pod _ t
    capture_from_pod-Writes (error not_found) t = fail-Writes _ _ t
    capture_from_pod-Writes (error already_exists) t = ends tt
    capture_from_pod-Writes (error (other_error e)) t = ends tt

    reconcile_active-Writes :
        (u : ControllerUtil) (name : Option Str) (t : Trace Op Ans)
        → Writes t (reconcile_active m u sr snap name)
    unfolding reconcile_active capture_from_source_pod
    reconcile_active-Writes u (some name) t = mirror-Writes name t
    reconcile_active-Writes u none t = calls tt (λ r. capture_from_pod-Writes r _)

  module _ (u : ControllerUtil) where
    after_confirm-Writes :
        (r : Reply PodSnapshotContent) (t : Trace Op Ans) → Writes t (after_confirm u snap r)
    unfolding after_confirm drop_finalizer
    after_confirm-Writes (found c) t = ends tt
    after_confirm-Writes (error not_found) t = calls tt (λ e. ends tt)
    after_confirm-Writes (error already_exists) t = ends tt
    after_confirm-Writes (error (other_error e)) t = ends tt

    delete_bound-Writes :
        (name : Option Str) (t : Trace Op Ans) → Writes t (delete_bound u snap name)
    unfolding delete_bound after_delete drop_finalizer
    delete_bound-Writes none t = calls tt (λ e. ends tt)
    delete_bound-Writes (some name) t = calls tt (λ e. search (program_rules, after_confirm-Writes))

    -- All that Reconcile writes as status, on a PodSnapshot that it read.
    pub reconcile_found-Writes :
        (sr : PodSnapshotReconciler) (t : Trace Op Ans) → Writes t (reconcile_found m u sr snap)
    unfolding reconcile_found handle_delete add_finalizer
    reconcile_found-Writes sr t =
        search (program_rules, delete_bound-Writes, reconcile_active-Writes sr)

module _ (m : Meta) (laws : MetaLaws m) (u : ControllerUtil) (sr : PodSnapshotReconciler) where
  -- Whatever the API server answers meanwhile, no status that Reconcile writes has Ready and Failed
  -- both True, if the PodSnapshot that it read has not.
  pub reconcile_found-IsCoherent :
      (snap : PodSnapshot)
      → IsCoherent m snap
      → Holds (StatusWrites (IsCoherent m)) AnyEnd [] (reconcile_found m u sr snap)
  reconcile_found-IsCoherent snap h =
      reconcile_found-Writes m snap (IsCoherent m)
        (record {
          at_ready = λ r c. rw (mark_ready-truth m laws snap r c).1 (&&-false _);
          at_failed = λ r c. rw (mark_failed-truth m laws snap r c).0;
          at_pending = λ r c. rw (mark_pending-truth m laws snap r c).0;
          unchanged = h;
          at_bound = λ name. h;
        })
        u sr []
