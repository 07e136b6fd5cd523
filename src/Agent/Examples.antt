-- ===== src/Agent/Examples.antt =====
-- Concrete inputs of the capture model, with the theorems applied to them.
use snapshot.Prelude.{◌≤◌, ◌≡◌, refl, true, false, none, some, [], ◌∷◌, codes, ltb, arith}
use snapshot.Kube.Prog.{Holds}
use snapshot.Kube.Samples.{sample_meta, sample_meta_laws}
use snapshot.Agent.Types.{WorkOrder}
use snapshot.Agent.Failure.{
  plain, wrapped, cleanup, is_cleanup_failure, joined, no_parts, part, deadline_exceeded,
  broker_failure, transaction_not_found, CaptureError, capture_cause, cause_from, exceeds_deadline,
  classify_capture_failure,
}
use snapshot.Kube.Prog.{run}
use snapshot.Agent.Owner.{here, there, In, choose_active_content_same}
use snapshot.Kube.Condition.{is_status_condition_true}
use snapshot.Agent.Retries.{serve, server, landed, mark_checkpoint_ready_with_source-lands}
use snapshot.Agent.Capture.{
  mark_checkpoint_ready, mark_checkpoint_ready_with_source, is_content_ready, is_content_failed,
  choose_active_content,
}
use snapshot.Agent.Ready.{Any, patches, mark_checkpoint_ready_bound}
use snapshot.Agent.Causes.{after_cleanups, wrapped_times, classify_capture_failure-after_cleanups}

abbrev order : WorkOrder
order = record {
  content = record {
    name = codes "podsnapshotcontent-s-1";
    uid = codes "c-1";
    deleting = false;
    finalizers = [];
    node_label = codes "node-a";
    snapshot_ref = record { namespace = codes "ml"; name = codes "llama"; uid = codes "s-1" };
    source = record { name = codes "llama-0"; uid = codes "p-1"; containers = codes "main" ∷ [] };
    source_node = codes "node-a";
    storage = none;
    containers = [];
    conditions = [];
  };
  resource_version = codes "7";
  created = 5;
  source = none;
  artifacts = [];
}

mark_checkpoint_ready_bound_example :
    Holds Any
      (λ s _. patches s ≤ 8)
      []
      (mark_checkpoint_ready sample_meta true order
        (codes "/data/c-1/main")
        (codes "main")
        (some (codes "handle")))
mark_checkpoint_ready_bound_example =
    mark_checkpoint_ready_bound sample_meta true order (codes "/data/c-1/main") (codes "main")
      (some (codes "handle"))

abbrev abort_failed : CaptureError
abort_failed = wrapped (cleanup (plain (broker_failure transaction_not_found)))

abbrev late : CaptureError
late = plain deadline_exceeded

classify_capture_failure-after_cleanups_example :
    classify_capture_failure
      (wrapped_times 2 (joined (after_cleanups (abort_failed ∷ []) (part late no_parts))))
    ≡ classify_capture_failure late
unfolding is_cleanup_failure
classify_capture_failure-after_cleanups_example =
    classify_capture_failure-after_cleanups 2 (abort_failed ∷ []) late no_parts (refl, tt) refl

times_out : (classify_capture_failure late).reason ≡ codes "CheckpointTimeout"
unfolding classify_capture_failure capture_cause cause_from exceeds_deadline
times_out = refl

abbrev rival : WorkOrder
rival = record {
  content = record (order.content) { name = codes "podsnapshotcontent-s-0" };
  resource_version = codes "7";
  created = 5;
  source = none;
  artifacts = [];
}

swapped : (x : WorkOrder) → In x (order ∷ rival ∷ []) → In x (rival ∷ order ∷ [])
swapped x here = there here
swapped x (there here) = here
swapped x (there (there i)) = elim i [ ]

swapped_back : (x : WorkOrder) → In x (rival ∷ order ∷ []) → In x (order ∷ rival ∷ [])
swapped_back x here = there here
swapped_back x (there here) = here
swapped_back x (there (there i)) = elim i [ ]

choose_active_content_same_example :
    choose_active_content sample_meta (order ∷ rival ∷ [])
    ≡ choose_active_content sample_meta (rival ∷ order ∷ [])
choose_active_content_same_example =
    choose_active_content_same sample_meta (order ∷ rival ∷ []) (rival ∷ order ∷ []) swapped
      swapped_back

-- The same work order, written meanwhile.
abbrev touched : WorkOrder
touched = record order { resource_version = codes "8" }

mark_checkpoint_ready_with_source-lands_example :
    (run serve
        (mark_checkpoint_ready_with_source sample_meta 8
          (codes "podsnapshotcontent-s-1")
          none
          (codes "main")
          none
          order)
        (server order (touched ∷ []))
      ≡ landed sample_meta
          (codes "podsnapshotcontent-s-1")
          sample_meta_laws
          none
          (codes "main")
          none
          8
          order
          (touched ∷ []))
    × (is_content_ready sample_meta
          (run serve
            (mark_checkpoint_ready_with_source sample_meta 8
              (codes "podsnapshotcontent-s-1")
              none
              (codes "main")
              none
              order)
            (server order (touched ∷ []))).1.stored
        ≡ ltb 1 8)
unfolding is_content_ready is_content_failed is_status_condition_true
mark_checkpoint_ready_with_source-lands_example =
    mark_checkpoint_ready_with_source-lands sample_meta (codes "podsnapshotcontent-s-1")
      sample_meta_laws none (codes "main") none 8 order (touched ∷ []) (refl, refl)
      ((λ e. grind arith), refl, (refl, refl), tt)
