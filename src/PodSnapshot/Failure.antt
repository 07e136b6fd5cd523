-- ===== src/PodSnapshot/Failure.antt =====
-- The bound path fails a PodSnapshot only on evidence that it has read.
use snapshot.Prelude.{
  ℕ, Str, ◌≡◌, refl, Bool, true, false, Option, none, some, [], ◌∷◌, str_eq, ltb, inl, inr, arith,
  Bool-cases,
}
use snapshot.Kube.Prog.{Trace, Holds, ends, calls, program_rules}
use snapshot.Kube.Condition.{
  Condition, ready, failed, Message, Meta, MetaLaws, is_status_condition_true,
}
use snapshot.Kube.Objects.{
  Pod, PodSnapshot, PodSnapshotContent, Reply, found, error, not_found, already_exists, other_error,
}
use snapshot.PodSnapshot.Client.{
  Op, Ans, update_status, get_content, read_content, read_pod, record_event, now, Outcome, Action,
}
use snapshot.PodSnapshot.Source.{
  pending_capture_source_failure, reason_source_pod_gone, source_pod_terminal_grace_remaining,
}
use snapshot.PodSnapshot.Status.{
  mark_ready, write_if_changed, fail_pod_snapshot, propagate_status, mirrored, mirrored_status,
  is_content_succeeded, is_content_failed, is_pod_snapshot_terminal,
}
use snapshot.PodSnapshot.Content.{backlinks}
use snapshot.PodSnapshot.Mirror.{
  wait_or_fail, fail_or_wait, resolve_source_failure, resolve_with_pod, resolve_with_content,
  after_read_pod, confirm_pending_capture_terminal, unless_failure, with_cached_pod,
  resolve_pending_bound_content, mirror_content, mirror_bound_content, source_key,
}
use snapshot.PodSnapshot.Conditions.{mark_ready-truth, mark_pending-truth}
use snapshot.PodSnapshot.Writes.{AnyEnd}

module _ (m : Meta) (snap : PodSnapshot) where
  -- The two authoritative reads, the pod before the content: the content belongs to the
  -- PodSnapshot and has no result yet.
  pub data Confirmed : Trace Op Ans → Reply Pod → PodSnapshotContent → Type 0 where
    confirmed :
        {name : Str} {p : Reply Pod} {c : PodSnapshotContent} {t : Trace Op Ans}
        → backlinks snap c ≡ true
        → is_content_succeeded m c ≡ false
        → is_content_failed m c ≡ false
        → Confirmed ((read_content name, found c) ∷ (read_pod (source_key snap), p) ∷ t) p c

  -- Why a capture that is bound may be failed, by what was read just before.
  pub data Evidence : Trace Op Ans → Type 0 where
    -- The content belongs to another PodSnapshot, in the cache or on the server.
    foreign_cached :
        {name : Str} {c : PodSnapshotContent} {t : Trace Op Ans}
        → backlinks snap c ≡ false
        → Evidence ((get_content name, found c) ∷ t)
    foreign :
        {name : Str} {c : PodSnapshotContent} {t : Trace Op Ans}
        → backlinks snap c ≡ false
        → Evidence ((read_content name, found c) ∷ t)
    -- The agent has failed the content, and has not succeeded.
    failed_cached :
        {name : Str} {c : PodSnapshotContent} {t : Trace Op Ans}
        → is_content_succeeded m c ≡ false
        → is_content_failed m c ≡ true
        → Evidence ((get_content name, found c) ∷ t)
    failed_live :
        {name : Str} {c : PodSnapshotContent} {t : Trace Op Ans}
        → is_content_succeeded m c ≡ false
        → is_content_failed m c ≡ true
        → Evidence ((read_content name, found c) ∷ t)
    -- The server has no such pod.
    pod_missing :
        {c : PodSnapshotContent} {t : Trace Op Ans} → Confirmed t (error not_found) c → Evidence t
    -- The pod on the server is another one, or has completed.
    pod_lost :
        {c : PodSnapshotContent} {pod : Pod} {reason : Str} {cause : Message} {t : Trace Op Ans}
        → Confirmed t (found pod) c
        → pending_capture_source_failure snap c pod ≡ some (reason, cause)
        → str_eq reason reason_source_pod_gone ≡ false
        → Evidence t
    -- The pod on the server failed or is being deleted, and the grace window is over.
    pod_gone :
        {c : PodSnapshotContent} {pod : Pod} {reason : Str} {cause : Message} {t : Trace Op Ans}
        {at : ℕ}
        → Confirmed t (found pod) c
        → pending_capture_source_failure snap c pod ≡ some (reason, cause)
        → source_pod_terminal_grace_remaining pod at ≡ 0
        → Evidence ((now, at) ∷ t)

  abbrev AfterEvent : Trace Op Ans → Type 0
  AfterEvent ((record_event _ _, _) ∷ t) = Evidence t
  AfterEvent t = Evidence t

  -- A status write that fails the PodSnapshot needs evidence, read just before it.
  abbrev pub FailsOnEvidence : Trace Op Ans → Op → Type 0
  FailsOnEvidence t (update_status s) =
      is_status_condition_true m s.conditions failed ≡ true → AfterEvent t
  FailsOnEvidence t _ = Unit

  abbrev Sound : Trace Op Ans → Action Outcome → Type 0
  Sound t p = Holds FailsOnEvidence AnyEnd t p

  fail-Sound :
      (reason : Str) (cause : Message) (t : Trace Op Ans)
      → Evidence t
      → Sound t (fail_pod_snapshot m snap reason cause)
  unfolding fail_pod_snapshot
  fail-Sound reason cause t e = calls tt (λ _. calls (λ _. e) (λ _. ends tt))

  module _ (laws : MetaLaws m) (active : is_pod_snapshot_terminal m snap ≡ false) where
    write-Sound :
        (step : Str) (p : PodSnapshot × Bool) (t : Trace Op Ans)
        → FailsOnEvidence t (update_status p.0)
        → Sound t (write_if_changed step p)
    unfolding write_if_changed
    write-Sound step (s, true) t h = calls h (λ e. ends tt)
    write-Sound step (s, false) t h = ends tt

    not_failed : is_status_condition_true m snap.conditions failed ≡ false
    unfolding is_pod_snapshot_terminal
    not_failed = active

    mirrored_ready-failed :
        (o : Option Condition)
        → is_status_condition_true m
            (mirrored o (mark_ready m snap) (snap, false)).0.conditions
            failed
          ≡ false
    mirrored_ready-failed none = not_failed
    mirrored_ready-failed (some c) = (mark_ready-truth m laws snap c.reason c.message).1

    mirrored_status-failed :
        (c : PodSnapshotContent)
        → is_status_condition_true m (mirrored_status m snap c).0.conditions failed ≡ true
        → (is_content_succeeded m c ≡ false) × (is_content_failed m c ≡ true)
    unfolding mirrored_status
    mirrored_status-failed c h = elim (Bool-cases (is_content_succeeded m c)) [
      | inl e ↦ cc (rw e at h, mirrored_ready-failed (m.find c.conditions ready))
      | inr e ↦ elim (Bool-cases (is_content_failed m c)) [
        | inl f ↦ (e, f)
        | inr f ↦ cc (rw (e, f) at h, (mark_pending-truth m laws snap _ _).1, not_failed)
      ]
    ]

    propagate-Sound :
        (c : PodSnapshotContent) (t : Trace Op Ans)
        → (is_content_succeeded m c ≡ false → is_content_failed m c ≡ true → AfterEvent t)
        → Sound t (propagate_status m snap c)
    unfolding propagate_status
    propagate-Sound c t h =
        write-Sound _ (mirrored_status m snap c) t
          (λ f. let (a, b) = mirrored_status-failed c f in h a b)

    -- A pending content is mirrored as Pending, which fails nothing.
    propagate_pending-Sound :
        (c : PodSnapshotContent) (t : Trace Op Ans)
        → is_content_failed m c ≡ false
        → Sound t (propagate_status m snap c)
    propagate_pending-Sound c t f = propagate-Sound c t (λ a b. cc)

    wait_or_fail-Sound :
        (pod : Pod) (reason : Str) (cause : Message) (c : PodSnapshotContent) (t : Trace Op Ans)
        (at : ℕ)
        → Confirmed t (found pod) c
        → pending_capture_source_failure snap c pod ≡ some (reason, cause)
        → Sound ((now, at) ∷ t) (wait_or_fail m snap pod reason cause at)
    unfolding wait_or_fail
    wait_or_fail-Sound pod reason cause c t at h e =
        elim (Bool-cases (ltb 0 (source_pod_terminal_grace_remaining pod at))) [
          | inl w ↦ rw w (ends tt)
          | inr w ↦ rw w (fail-Sound reason cause _ (pod_gone h e (ground arith)))
        ]

    fail_or_wait-Sound :
        (pod : Pod) (reason : Str) (cause : Message) (c : PodSnapshotContent) (t : Trace Op Ans)
        → Confirmed t (found pod) c
        → pending_capture_source_failure snap c pod ≡ some (reason, cause)
        → Sound t (fail_or_wait m snap pod reason cause)
    unfolding fail_or_wait
    fail_or_wait-Sound pod reason cause c t h e =
        search (program_rules, wait_or_fail-Sound pod reason cause c, fail-Sound, pod_lost h e)

    resolve_source_failure-Sound :
        (c : PodSnapshotContent) (pod : Pod) (f : Option (Str × Message)) (t : Trace Op Ans)
        → is_content_failed m c ≡ false
        → Confirmed t (found pod) c
        → pending_capture_source_failure snap c pod ≡ f
        → Sound t (resolve_source_failure m snap c pod f)
    unfolding resolve_source_failure
    resolve_source_failure-Sound c pod none t p h e = propagate_pending-Sound c t p
    resolve_source_failure-Sound c pod (some (reason, cause)) t p h e =
        fail_or_wait-Sound pod reason cause c t h e

    resolve_with_content-Sound :
        (p : Reply Pod) (name : Str) (r : Reply PodSnapshotContent) (t : Trace Op Ans)
        → ((c : PodSnapshotContent) (s : Trace Op Ans)
            → is_content_failed m c ≡ false
            → Confirmed s p c
            → Sound s (resolve_with_pod m snap c p))
        → Sound
            ((read_content name, r) ∷ (read_pod (source_key snap), p) ∷ t)
            (resolve_with_content m snap p r)
    unfolding resolve_with_content
    resolve_with_content-Sound p name (error e) t k = ends tt
    resolve_with_content-Sound p name (found c) t k = elim (Bool-cases (backlinks snap c)) [
      | inr b ↦ rw b (fail-Sound _ _ _ (foreign b))
      | inl b ↦ elim (Bool-cases (is_content_succeeded m c)) [
        | inl s ↦ rw (b, s) (propagate-Sound c _ (λ a f. cc))
        | inr s ↦ elim (Bool-cases (is_content_failed m c)) [
          | inl f ↦ rw (b, s, f) (propagate-Sound c _ failed_live)
          | inr f ↦ rw (b, s, f) (k c _ f (confirmed b s f))
        ]
      ]
    ]

    after_read_pod-Sound :
        (name : Str) (r : Reply Pod) (t : Trace Op Ans)
        → Sound ((read_pod (source_key snap), r) ∷ t) (after_read_pod m snap name r)
    unfolding after_read_pod resolve_with_pod
    after_read_pod-Sound name (found pod) t = calls tt λ r.
        resolve_with_content-Sound (found pod) name r t
          (λ c s f h. resolve_source_failure-Sound c pod _ s f h refl)
    after_read_pod-Sound name (error not_found) t = calls tt λ r.
        resolve_with_content-Sound (error not_found) name r t
          (λ c s f h. fail-Sound _ _ s (pod_missing h))
    after_read_pod-Sound name (error already_exists) t = ends tt
    after_read_pod-Sound name (error (other_error e)) t = ends tt

    confirm-Sound :
        (cached : PodSnapshotContent) (t : Trace Op Ans)
        → Sound t (confirm_pending_capture_terminal m snap cached)
    unfolding confirm_pending_capture_terminal
    confirm-Sound cached t = calls tt (λ r. after_read_pod-Sound cached.name r t)

    unless_failure-Sound :
        (cached : PodSnapshotContent) (f : Option (Str × Message)) (t : Trace Op Ans)
        → is_content_failed m cached ≡ false
        → Sound t (unless_failure m snap cached f)
    unless_failure-Sound cached none t p = propagate_pending-Sound cached t p
    unless_failure-Sound cached (some _) t p = confirm-Sound cached t

    with_cached_pod-Sound :
        (cached : PodSnapshotContent) (r : Reply Pod) (t : Trace Op Ans)
        → is_content_failed m cached ≡ false
        → Sound t (with_cached_pod m snap cached r)
    unfolding with_cached_pod
    with_cached_pod-Sound cached (found pod) t p = unless_failure-Sound cached _ t p
    with_cached_pod-Sound cached (error not_found) t p = confirm-Sound cached t
    with_cached_pod-Sound cached (error already_exists) t p = ends tt
    with_cached_pod-Sound cached (error (other_error e)) t p = ends tt

    mirror_content-Sound :
        (name : Str) (r : Reply PodSnapshotContent) (t : Trace Op Ans)
        → Sound ((get_content name, r) ∷ t) (mirror_content m snap r)
    unfolding mirror_content resolve_pending_bound_content
    mirror_content-Sound name (error e) t = ends tt
    mirror_content-Sound name (found c) t = elim (Bool-cases (backlinks snap c)) [
      | inr b ↦ rw b (fail-Sound _ _ _ (foreign_cached b))
      | inl b ↦ elim (Bool-cases (is_content_succeeded m c)) [
        | inl s ↦ rw (b, s) (propagate-Sound c _ (λ a f. cc))
        | inr s ↦ elim (Bool-cases (is_content_failed m c)) [
          | inl f ↦ rw (b, s, f) (propagate-Sound c _ failed_cached)
          | inr f ↦ rw (b, s, f) (calls tt (λ r. with_cached_pod-Sound c r _ f))
        ]
      ]
    ]

    -- Whatever the API server answers, the bound path of Reconcile fails an active PodSnapshot only
    -- on what it read just before: a content of another PodSnapshot, a content that the agent has
    -- failed and not succeeded, or, read past the cache, first the pod and then a content with no
    -- result, a pod that does not exist, is another one or has completed, or that failed or is
    -- being deleted and whose grace window is over.
    pub mirror_bound_content-FailsOnEvidence :
        (name : Str) → Holds FailsOnEvidence AnyEnd [] (mirror_bound_content m snap name)
    unfolding mirror_bound_content
    mirror_bound_content-FailsOnEvidence name = calls tt (λ r. mirror_content-Sound name r [])
