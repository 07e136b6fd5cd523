-- ===== src/Maintenance/Orphans.antt =====
-- A sweep deletes orphans only.
use snapshot.Prelude.{
  ℕ, suc, ◌<◌, ◌≤◌, ◌≡◌, refl, subst, Str, true, false, List, [], ◌∷◌, ◌==◌, contains, str_eq_refl,
  arith,
}
use snapshot.Kube.Prog.{Trace, Holds, ends, calls, Holds-if}
use snapshot.Kube.Finalizer.{ControllerUtil}
use snapshot.Kube.Objects.{Reply, found, error}
use snapshot.Kube.Result.{Result, ok, refused}
use snapshot.Maintenance.Client.{
  WorkItemKey, Answers, Op, Ans, patch_content, lock, unlock, delete_artifact, candidates,
  list_contents, enqueue, Action, ItemResult, succeeded,
}
use snapshot.Maintenance.Scan.{ContentScanResult, collect_content_scan_result}
use snapshot.Maintenance.Process.{
  QueueConfig, sweep_key, joined, sweep_loop, enqueue_all, after_scan, enumerate_and_scan,
  process_sweep,
}
use snapshot.Maintenance.Cleanup.{AnyEnd}

-- The number of artifact deletions so far.
abbrev pub deletions : Trace Op Ans → ℕ
deletions [] = 0
deletions ((delete_artifact uid, d) ∷ t) = suc (deletions t)
deletions (_ ∷ t) = deletions t

contains-here : (x : Str) (xs : List Str) → contains x (x ∷ xs) ≡ true
unfolding contains
contains-here x xs = rw (str_eq_refl x) refl

contains-there : (x y : Str) (xs : List Str) → contains x xs ≡ true → contains x (y ∷ xs) ≡ true
unfolding contains
contains-there x y xs h = rw h (ground arith)

below : (n m : ℕ) → n ≤ m → (n == m) ≡ false → n < m
below n m h e = ground arith

module _ (u : ControllerUtil) (cfg : QueueConfig) where
  -- The candidates were enumerated, and after that a complete list of the contents was made.
  pub data Enumerated (uids : List Str) (scan : ContentScanResult) : Trace Op Ans → Type 0 where
    listed_after :
        {answers : List Answers} {t : Trace Op Ans}
        → collect_content_scan_result u cfg.list_attempts answers ≡ ok scan
        → Enumerated uids scan ((list_contents, answers) ∷ (candidates, found uids) ∷ t)
    later :
        {x : (o : Op) × Ans o} {t : Trace Op Ans}
        → Enumerated uids scan t
        → Enumerated uids scan (x ∷ t)

  -- The last call took the lock of the artifact, which names no store.
  abbrev pub IsLocked : Str → Trace Op Ans → Type 0
  IsLocked uid t =
      (before : Trace Op Ans) × (t
        ≡ (lock (record { store_id = []; artifact_uid = uid }), tt) ∷ before)

  -- An artifact that is deleted was a candidate, and its content was not in the list made after;
  -- the call right before locked its UID with no store, and fewer than a batch were deleted
  -- before. No content is changed.
  abbrev pub DeletesOrphans : Trace Op Ans → Op → Type 0
  DeletesOrphans t (delete_artifact uid) =
      (uids : List Str) × (scan : ContentScanResult) × Enumerated uids scan t
      × (contains uid uids ≡ true)
      × (contains uid scan.existing_uids ≡ false)
      × (deletions t < cfg.batch_size)
      × IsLocked uid t
  DeletesOrphans t (patch_content _) = ⊥
  DeletesOrphans t _ = Unit

  abbrev Careful : Trace Op Ans → Action ItemResult → Type 0
  Careful t p = Holds DeletesOrphans AnyEnd t p

  module _ (uids : List Str) (scan : ContentScanResult) where
    -- Every candidate that the loop has yet to look at was enumerated.
    abbrev AreCandidates : List Str → Type 0
    AreCandidates rest = (x : Str) → contains x rest ≡ true → contains x uids ≡ true

    sweep_loop-Careful :
        (rest : List Str) (t : Trace Op Ans) (errs : ItemResult)
        → Enumerated uids scan t
        → AreCandidates rest
        → deletions t ≤ cfg.batch_size
        → Careful t (sweep_loop u cfg scan.existing_uids (deletions t) errs rest)
    unfolding sweep_loop sweep_key
    sweep_loop-Careful [] t errs seen all h = ends tt
    sweep_loop-Careful (uid ∷ rest) t errs seen all h =
        Holds-if (contains uid scan.existing_uids)
          (λ _. sweep_loop-Careful rest t errs seen (λ x c. all x (contains-there x uid rest c)) h)
          (λ orphan.
            Holds-if (deletions t == cfg.batch_size) (λ _. ends tt)
              (λ room.
                let fewer = below (deletions t) cfg.batch_size h room in
                calls tt (λ _.
                  calls
                    (
                      uids,
                      scan,
                      later seen,
                      all uid (contains-here uid rest),
                      orphan,
                      fewer,
                      (t, refl),
                    )
                    (λ d. calls tt (λ _.
                      sweep_loop-Careful rest
                        ((unlock (sweep_key uid), tt)
                          ∷ (delete_artifact uid, d)
                          ∷ (lock (sweep_key uid), tt)
                          ∷ t)
                        (joined u cfg errs d) (later (later (later seen)))
                        (λ x c. all x (contains-there x uid rest c)) (omega arith))))))

  -- Scheduling work items keeps what holds before it.
  enqueue_all-Careful :
      (Before : Trace Op Ans → Type 0)
      → ((t : Trace Op Ans) (key : WorkItemKey) → Before t → Before ((enqueue key, tt) ∷ t))
      → (keys : List WorkItemKey) (next : Action ItemResult) (t : Trace Op Ans) → Before t
      → ((s : Trace Op Ans) → Before s → Careful s next)
      → Careful t (enqueue_all u cfg keys next)
  unfolding enqueue_all
  enqueue_all-Careful Before keep [] next t b h = h t b
  enqueue_all-Careful Before keep (key ∷ keys) next t b h =
      calls tt (λ _. enqueue_all-Careful Before keep keys next _ (keep t _ b) h)

  after_scan-Careful :
      (enumerated : Reply (List Str)) (answers : List Answers) (r : Result ContentScanResult)
      → collect_content_scan_result u cfg.list_attempts answers ≡ r
      → Careful
          ((list_contents, answers) ∷ (candidates, enumerated) ∷ [])
          (after_scan u cfg enumerated r)
  unfolding after_scan
  after_scan-Careful enumerated answers (refused m) e = ends tt
  after_scan-Careful (found uids) answers (ok scan) e =
      enqueue_all-Careful (λ t. Enumerated uids scan t × (deletions t ≡ 0))
        (λ t key b. (later b.0, b.1)) scan.pending_deletes _ _ (listed_after e, refl)
        (λ s b. sweep_all s b.0 b.1)
    where
      sweep_all :
          (s : Trace Op Ans)
          → Enumerated uids scan s
          → deletions s ≡ 0
          → Careful s (sweep_loop u cfg scan.existing_uids 0 succeeded uids)
      sweep_all s seen z =
          subst (λ n. Careful s (sweep_loop u cfg scan.existing_uids n succeeded uids)) z
            (sweep_loop-Careful uids scan uids s succeeded seen (λ x c. c) (omega (arith, z)))
  after_scan-Careful (error err) answers (ok scan) e =
      enqueue_all-Careful (λ _. Unit) (λ _ _ b. b) scan.pending_deletes _ _ tt (λ s _. ends tt)

  -- Whatever the API server and the backend answer, a sweep deletes an artifact only if it was
  -- enumerated before the contents were listed, a complete list of them did not have its UID, and
  -- the call right before locked the UID, with no store in the key; it deletes no more than a
  -- batch, and changes no content.
  pub process_sweep-DeletesOrphans : Holds DeletesOrphans AnyEnd [] (process_sweep u cfg)
  unfolding process_sweep enumerate_and_scan
  process_sweep-DeletesOrphans =
      Holds-if cfg.is_registered
        (λ _.
          calls tt
            (λ enumerated. calls tt (λ answers. after_scan-Careful enumerated answers _ refl)))
        (λ _. ends tt)
