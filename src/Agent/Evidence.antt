-- ===== src/Agent/Evidence.antt =====
-- What stands behind a dump and behind a result that is written.
use snapshot.Prelude.{
  ℕ, Str, ◌≡◌, ◌≢◌, refl, ap, ◌∙◌, ◌⊎◌, true, false, Option, none, some, List, [], ◌∷◌, arith,
}
use mathlib.Core.List.{Mem, mem-cons_of_mem}
use snapshot.Kube.Prog.{Trace}
use snapshot.Kube.Condition.{
  ConditionType, ready, failed, is_true, Message, Condition, Meta, MetaLaws, holds_true,
  is_status_condition_true,
}
use snapshot.Kube.Objects.{found}
use snapshot.PodContract.Types.{ok}
use snapshot.Agent.Types.{
  WorkOrder, SourcePod, CheckpointParams, dumped, Op, Ans, indexed_contents, run_probe,
  resolve_artifact_path, get_pod, read_manifest, checkpoint, get_content, patch_status, conflict,
}
use snapshot.Agent.Capture.{
  classify_source_pod_liveness, failed_checkpoint_container, is_content_ready, is_content_failed,
  succeeded, marked_failed, choose_active_content,
}
use snapshot.Agent.Reconcile.{pod_key}
use snapshot.Agent.Ready.{IsOpen}

abbrev pub Answered : (o : Op) → Ans o → Trace Op Ans → Type 0
Answered o x t = Mem {A = (o : Op) × Ans o} (o, x) t

-- One version of one object.
abbrev pub IsSame : WorkOrder → WorkOrder → Type 0
IsSame w base =
    (w.content.name ≡ base.content.name)
    × (w.content.uid ≡ base.content.uid)
    × (w.resource_version ≡ base.resource_version)

module _ (m : Meta) (order : WorkOrder) where
  -- The pod that was read for the order, with the UID that the order pins, if it pins one.
  pub record IsSource (sp : SourcePod) (t : Trace Op Ans) : Type 0 where
    pub was_read : Answered (get_pod (pod_key order)) (found sp) t
    pub pinned : (order.content.source.uid ≡ []) ⊎ (sp.pod.uid ≡ order.content.source.uid)

  -- The order owns its pod, which runs, and in which no container has failed.
  pub record IsClaimed (sp : SourcePod) (t : Trace Op Ans) : Type 0 where
    pub source : IsSource sp t
    pub orders : List WorkOrder
    pub listed : Answered (indexed_contents sp.pod) (found orders) t
    pub chosen : choose_active_content m orders ≡ order.content.name
    pub no_exit : failed_checkpoint_container sp.pod.container_statuses ≡ none
    pub live : classify_source_pod_liveness sp.pod ≡ none

  -- A dump is of a claimed pod whose probe has just succeeded, for the content's own artifact.
  pub record MayDump (p : CheckpointParams) (t : Trace Op Ans) : Type 0 where
    pub claimed : IsClaimed p.pod t
    pub next : Option ℕ
    pub probed : Answered (run_probe order.content.name) (true, next) t
    pub own : p.content_uid ≡ order.content.uid

  -- An artifact is committed: a dump of the order has succeeded, or the order has no store and the
  -- manifest at its path names it.
  pub data IsCommitted (t : Trace Op Ans) : Type 0 where
    by_dump :
        {p : CheckpointParams} {artifact : Option Str}
        → Answered (checkpoint p) (dumped artifact) t
        → p.content_uid ≡ order.content.uid
        → IsCommitted t
    by_manifest :
        {path container : Str}
        → order.content.storage ≡ none
        → Answered (resolve_artifact_path order.content.uid container) (ok path) t
        → Answered (read_manifest path) (some (order.content.uid, container)) t
        → IsCommitted t

  -- What the next write starts from: right after the order was read again under its name, what was
  -- read then, and else the order itself. Right after a conflict nothing is written.
  abbrev pub IsCurrent : WorkOrder → Trace Op Ans → Type 0
  IsCurrent base ((get_content name, found current) ∷ t) =
      (name ≡ order.content.name) × (base ≡ current)
  IsCurrent base ((patch_status w, conflict) ∷ t) = ⊥
  IsCurrent base _ = base ≡ order

  -- A status that is written is of the current version of the order, and has one result: Failed,
  -- or Ready for a committed artifact.
  pub record HasResult (w : WorkOrder) (t : Trace Op Ans) : Type 0 where
    pub base : WorkOrder
    pub current : IsCurrent base t
    pub same : IsSame w base
    pub result :
        ((is_content_failed m w ≡ true) × (is_content_ready m w ≡ false))
        ⊎ ((is_content_ready m w ≡ true) × (is_content_failed m w ≡ false) × IsCommitted t)

  module _ (t : Trace Op Ans) (o : Op) (x : Ans o) where
    pub grow-IsSource : {sp : SourcePod} → IsSource sp t → IsSource sp ((o, x) ∷ t)
    grow-IsSource h = record { was_read = mem-cons_of_mem _ h.was_read; pinned = h.pinned }

    pub grow-IsClaimed : {sp : SourcePod} → IsClaimed sp t → IsClaimed sp ((o, x) ∷ t)
    grow-IsClaimed h = record {
      source = grow-IsSource h.source;
      orders = h.orders;
      listed = mem-cons_of_mem _ h.listed;
      chosen = h.chosen;
      no_exit = h.no_exit;
      live = h.live;
    }

    pub grow-IsCommitted : IsCommitted t → IsCommitted ((o, x) ∷ t)
    grow-IsCommitted (by_dump a b) = by_dump (mem-cons_of_mem _ a) b
    grow-IsCommitted (by_manifest a b c) = by_manifest a (mem-cons_of_mem _ b) (mem-cons_of_mem _ c)

module _ (m : Meta) (laws : MetaLaws m) where
  -- A condition that is set to True is, and the other result is what it was.
  set_true :
      (cs : List Condition) (c : Condition)
      → c.status ≡ is_true
      → is_status_condition_true m (m.set cs c).0 c.kind ≡ true
  unfolding is_status_condition_true
  set_true cs c e = ap (holds_true m) (laws.find-set_self cs c) ∙ rw e refl

  set_other :
      (cs : List Condition) (c : Condition) (k : ConditionType)
      → k ≢ c.kind
      → is_status_condition_true m (m.set cs c).0 k ≡ is_status_condition_true m cs k
  unfolding is_status_condition_true
  set_other cs c k h = ap (holds_true m) (laws.find-set_ne cs c k h)

  pub marked_failed-IsSame :
      (w : WorkOrder) (reason : Str) (cause : Message) → IsSame (marked_failed m w reason cause) w
  unfolding marked_failed
  marked_failed-IsSame w reason cause = (refl, refl, refl)

  pub succeeded-IsSame :
      (w : WorkOrder) (source : Option Str) (name : Str) (artifact : Option Str)
      → IsSame (succeeded m w source name artifact) w
  unfolding succeeded
  succeeded-IsSame w source name artifact = (refl, refl, refl)

  pub marked_failed-flags :
      (w : WorkOrder) (reason : Str) (cause : Message)
      → IsOpen m w
      → (is_content_failed m (marked_failed m w reason cause) ≡ true)
        × (is_content_ready m (marked_failed m w reason cause) ≡ false)
  unfolding is_content_failed is_content_ready marked_failed
  marked_failed-flags w reason cause (r, f) = (
    set_true w.content.conditions _ refl,
    set_other w.content.conditions _ ready (λ e. grind arith) ∙ r,
  )

  pub succeeded-flags :
      (w : WorkOrder) (source : Option Str) (name : Str) (artifact : Option Str)
      → IsOpen m w
      → (is_content_ready m (succeeded m w source name artifact) ≡ true)
        × (is_content_failed m (succeeded m w source name artifact) ≡ false)
  unfolding is_content_failed is_content_ready succeeded
  succeeded-flags w source name artifact (r, f) = (
    set_true w.content.conditions _ refl,
    set_other w.content.conditions _ failed (λ e. grind arith) ∙ f,
  )
