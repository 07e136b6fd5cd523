-- ===== src/Agent/Retries.antt =====
-- markCheckpointReadyWithSource of agent/internal/controller/podsnapshotcontent.go, on a server that
-- others write too.
use snapshot.Prelude.{
  ℕ, zero, suc, Str, ◌≡◌, ◌≢◌, refl, sym, ap, ◌∙◌, true, false, Option, none, List, [], ◌∷◌, length,
  ltb, Bool-cases, inl, inr, codes, str_eq, str_eq_iff, str_eq_refl, if◌then◌else◌, arith,
}
use snapshot.Kube.Prog.{run}
use snapshot.Kube.Condition.{Meta, MetaLaws}
use snapshot.Kube.Objects.{Reply, not_found, found, error}
use snapshot.PodContract.Types.{ok}
use snapshot.Agent.Types.{
  WorkOrder, PatchReply, patched, conflict, dumped, Op, Ans, cached_content, indexed_contents,
  delete_gate, load_gate, store_gate, new_gate, run_probe, requeue_capture, resolve_artifact_path,
  get_content, get_pod, read_manifest, read_source, fetch_manifest, patch_status, add_label,
  remove_label, emit_event, kill_running, resolve_container, check_staging_capacity, checkpoint,
  Outcome, stop, retry, Action,
}
use snapshot.Agent.Capture.{
  is_content_ready, succeeded, after_ready, after_ready_patch, mark_checkpoint_ready_with_source,
}
use snapshot.Agent.Ready.{IsOpen}
use snapshot.Agent.Evidence.{succeeded-IsSame, succeeded-flags}

-- What the server has stored, and what others are about to store, one of them before each of the
-- next writes.
pub record Server : Type 0 where
  pub stored : WorkOrder
  pub rivals : List WorkOrder

abbrev pub server : WorkOrder → List WorkOrder → Server
server stored rivals = record { stored = stored; rivals = rivals }

abbrev overtaken : Server → Server
overtaken s = go s.stored s.rivals
  where
    go : WorkOrder → List WorkOrder → Server
    go stored [] = server stored []
    go stored (rival ∷ rivals) = server rival rivals

-- The optimistic lock: a write is accepted only for the version that is stored. The version that
-- an accepted write is given is left out, since nothing is written after it.
abbrev lock_on : WorkOrder → Server → PatchReply × Server
lock_on w s =
    if str_eq w.resource_version s.stored.resource_version
    then (patched, server w s.rivals)
    else (conflict, s)

abbrev read_by : Str → Server → Reply WorkOrder
read_by name s = if str_eq name s.stored.content.name then found s.stored else error not_found

-- What it answers to the calls that do not concern the work order is of no matter.
abbrev pub serve : (o : Op) → Server → Ans o × Server
serve (patch_status w) s = lock_on w (overtaken s)
serve (get_content name) s = (read_by name s, s)
serve (cached_content name) s = (found none, s)
serve (indexed_contents pod) s = (found [], s)
serve (delete_gate name) s = (tt, s)
serve (load_gate name) s = (false, s)
serve (store_gate name) s = (tt, s)
serve (new_gate order pod name) s = (ok false, s)
serve (run_probe name) s = ((true, none), s)
serve (requeue_capture name n) s = (tt, s)
serve (resolve_artifact_path uid name) s = (ok [], s)
serve (get_pod key) s = (error not_found, s)
serve (read_manifest path) s = (none, s)
serve (read_source path) s = (none, s)
serve (fetch_manifest handle) s = (none, s)
serve (add_label pod) s = (none, s)
serve (remove_label pod) s = (none, s)
serve (emit_event reason) s = (tt, s)
serve (kill_running pod) s = (tt, s)
serve (resolve_container id) s = (ok 1, s)
serve (check_staging_capacity pid) s = (none, s)
serve (checkpoint p) s = (dumped none, s)

ltb-zero : (k : ℕ) → ltb k 0 ≡ false
ltb-zero k = ground arith

zero_ltb : (n : ℕ) → ltb 0 (suc n) ≡ true
zero_ltb n = ground arith

ltb-suc : (k n : ℕ) → ltb (suc k) (suc n) ≡ ltb k n
ltb-suc k n = ground arith

str_eq_ne : (s t : Str) → s ≢ t → str_eq s t ≡ false
str_eq_ne s t h = elim (Bool-cases (str_eq s t)) [
  | inl e ↦ elim (h ((str_eq_iff s t).0 e)) [ ]
  | inr e ↦ e
]

-- The last of the rivals, or the order itself.
abbrev pub last_of : WorkOrder → List WorkOrder → WorkOrder
last_of order [] = order
last_of order (rival ∷ rivals) = last_of rival rivals

-- The server after so many of the rivals have written.
abbrev pub after : ℕ → WorkOrder → List WorkOrder → Server
after zero order rivals = server order rivals
after (suc n) order [] = server order []
after (suc n) order (rival ∷ rivals) = after n rival rivals

accepted :
    (w : WorkOrder) (s : Server)
    → w.resource_version ≡ s.stored.resource_version
    → lock_on w s ≡ (patched, server w s.rivals)
accepted w s e = rw (e, str_eq_refl s.stored.resource_version) refl

refused_write :
    (w : WorkOrder) (s : Server)
    → w.resource_version ≢ s.stored.resource_version
    → lock_on w s ≡ (conflict, s)
refused_write w s h = rw (str_eq_ne w.resource_version s.stored.resource_version h) refl

read_by_name :
    (name : Str) (s : Server) → s.stored.content.name ≡ name → read_by name s ≡ found s.stored
read_by_name name s e = rw (e, str_eq_refl name) refl

module _ (m : Meta) (name : Str) where
  -- Each rival writes a new version of the object of the name, and no result.
  abbrev pub AreRivals : WorkOrder → List WorkOrder → Type 0
  AreRivals order [] = Unit
  AreRivals order (rival ∷ rivals) =
      (order.resource_version ≢ rival.resource_version)
      × (rival.content.name ≡ name)
      × IsOpen m rival
      × AreRivals rival rivals

  module _ (laws : MetaLaws m) (source : Option Str) (container : Str) (artifact : Option Str) where
    abbrev marks : ℕ → WorkOrder → Action Outcome
    marks tries order =
        mark_checkpoint_ready_with_source m tries name source container artifact order

    -- How a run ends, and what is stored then.
    abbrev pub landed : ℕ → WorkOrder → List WorkOrder → Outcome × Server
    landed tries order rivals =
        if ltb (length rivals) tries
        then (stop, server (succeeded m (last_of order rivals) source container artifact) [])
        else (retry (codes "exceeded conflict retries"), after tries order rivals)

    -- What follows the answer to a write.
    abbrev replied : ℕ → PatchReply × Server → Outcome × Server
    replied tries p = run serve (after_ready_patch m name (marks tries) p.0) p.1

    reread :
        (again : WorkOrder → Action Outcome) (rival : WorkOrder) (s : Server)
        → IsOpen m rival
        → run serve (after_ready m name again (found rival)) s ≡ run serve (again rival) s
    reread again rival s h = rw (h.1, h.0) refl

    run-marks :
        (tries : ℕ) (order : WorkOrder) (rivals : List WorkOrder)
        → AreRivals order rivals
        → run serve (marks tries order) (server order rivals) ≡ landed tries order rivals
    unfolding mark_checkpoint_ready_with_source run
    run-marks zero order rivals h = rw (ltb-zero (length rivals)) refl
    run-marks (suc n) order [] h =
        ap (replied n) (
          accepted (succeeded m order source container artifact) (server order [])
            ((succeeded-IsSame m laws order source container artifact).2))
        ∙ rw (zero_ltb n) refl
    run-marks (suc n) order (rival ∷ rivals) (new, named, undecided, h) =
        ap (replied n) (
          refused_write (succeeded m order source container artifact) (server rival rivals)
            (λ e. new (sym (succeeded-IsSame m laws order source container artifact).2 ∙ e)))
        ∙ ap (λ r. run serve (after_ready m name (marks n) r) (server rival rivals))
            (read_by_name name (server rival rivals) named)
        ∙ reread (marks n) rival (server rival rivals) undecided
        ∙ run-marks n rival rivals h
        ∙ rw (ltb-suc (length rivals) n) refl

    after-not_ready :
        (tries : ℕ) (order : WorkOrder) (rivals : List WorkOrder)
        → IsOpen m order
        → AreRivals order rivals
        → is_content_ready m (after tries order rivals).stored ≡ false
    after-not_ready zero order rivals o h = o.0
    after-not_ready (suc n) order [] o h = o.0
    after-not_ready (suc n) order (rival ∷ rivals) o (new, named, undecided, h) =
        after-not_ready n rival rivals undecided h

    last_of-IsOpen :
        (order : WorkOrder) (rivals : List WorkOrder)
        → IsOpen m order
        → AreRivals order rivals
        → IsOpen m (last_of order rivals)
    last_of-IsOpen order [] o h = o
    last_of-IsOpen order (rival ∷ rivals) o (new, named, undecided, h) =
        last_of-IsOpen rival rivals undecided h

    landed-ready :
        (tries : ℕ) (order : WorkOrder) (rivals : List WorkOrder)
        → IsOpen m order
        → AreRivals order rivals
        → is_content_ready m (landed tries order rivals).1.stored ≡ ltb (length rivals) tries
    landed-ready tries order rivals o h = elim (Bool-cases (ltb (length rivals) tries)) [
      | inl e ↦
          rw e
            (succeeded-flags m laws (last_of order rivals) source container artifact
              (last_of-IsOpen order rivals o h)).0
      | inr e ↦ rw e (after-not_ready tries order rivals o h)
    ]

    -- On a server where others get in first before so many of the next writes, each with a new
    -- version of the work order that has no result, the Ready write ends without a retry where
    -- these are fewer than the tries. What is stored is then the last of those versions with the
    -- result added, and it is Ready. Else the writer gives up and asks to be run again, and what
    -- is stored is the version that was last written by others, which is not Ready.
    pub mark_checkpoint_ready_with_source-lands :
        (tries : ℕ) (order : WorkOrder) (rivals : List WorkOrder)
        → IsOpen m order
        → AreRivals order rivals
        → (run serve
              (mark_checkpoint_ready_with_source m tries name source container artifact order)
              (server order rivals)
            ≡ landed tries order rivals)
          × (is_content_ready m
                (run serve
                  (mark_checkpoint_ready_with_source m tries name source container artifact order)
                  (server order rivals)).1.stored
              ≡ ltb (length rivals) tries)
    mark_checkpoint_ready_with_source-lands tries order rivals o h =
        let ends = run-marks tries order rivals h in
        (ends, ap (λ p. is_content_ready m p.1.stored) ends ∙ landed-ready tries order rivals o h)
