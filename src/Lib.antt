-- ===== src/Lib.antt =====
-- Models of the checkpoint and restore system for GPU pods, and what is proved of them.
--
-- The operator turns a PodSnapshot into a PodSnapshotContent, the work order that the node agent
-- executes, and mirrors the agent's result back. The agent decides with api/compat whether a
-- checkpoint may be restored into an environment.
--
-- Compat models api/compat: the policy table of compat.go and checks.go, and the instruction sets
-- of cpufeatures.go. Compat.Types has Environment, Mismatch and the gates; Compat.Versions the
-- version parsers; Compat.Rules, Compat.Devices, Compat.CpuFeatures and Compat.Digest the rules,
-- one definition for each check; Compat.Table the table, registerChecks and Compare. The sets and
-- quantities of k8s.io/apimachinery and the digest of distribution/reference are fields of the
-- record Libs, with what is used of them as hypotheses (SetLaws, QuantityLaws, RefusesEmpty).
--
-- PodSnapshot models operator/internal/controller/podsnapshot_reconciler.go: PodSnapshot.Source
-- the checks of the source pod, PodSnapshot.Status the conditions, PodSnapshot.Content the work
-- order and its binding, PodSnapshot.Mirror the bound path, PodSnapshot.Reconcile Reconcile and
-- handleDelete. A handler is a program (Kube.Prog) that calls the API server and goes on from its
-- answer. The answer is arbitrary, so what holds of a program holds whatever other writers do and
-- whichever call fails. Kube.Objects has the fields of the objects that are read, Kube.Condition
-- the conditions: meta.SetStatusCondition and its lookup are fields of Meta with the laws MetaLaws,
-- and the finalizer helpers of controllerutil are fields of ControllerUtil.
--
-- PodContract models api/podcontract, which the operator, the agent and workload owners share:
-- PodContract.Protocol the restore-complete file of protocol.go and the outcome of
-- restore_status.go, PodContract.Mappings the annotations, PodContract.Parts and PodContract.Policy
-- the parts of a pod that restore_pod.go checks and shapes, and PodContract.Build Build and
-- Validate. The loop that three of its checks share is at_most_one in PodContract.Scan. The name
-- checks of k8s.io/apimachinery are fields of the record Validation.
--
-- Maintenance models operator/internal/maintenance, which deletes checkpoint artifacts:
-- Maintenance.Client the work items of workitem.go and the calls of a worker, Maintenance.Scan
-- scan.go, Maintenance.Process process.go and operator/internal/controller/
-- snapshotcontent_reconciler.go, which schedules the work items, and Maintenance.Retry the decision
-- of processNextItem in queue.go. The list calls of an attempt to scan
-- are answered one after the other by functions of their options, finitely many of them before the
-- deadline. A backend is known by its answers only.
--
-- SnapshotJob models operator/internal/controller/snapshotjob_*.go, which runs a source Job,
-- captures its pod and reports how far both are. SnapshotJob.Types and SnapshotJob.Reason have the
-- fields and the reasons of api/v1alpha1/snapshotjob_types.go; SnapshotJob.Terminal the end of a
-- Job, of a capture and of the helper containers; SnapshotJob.SourceJob NewSourceJob and
-- EnsureControlVolume of operator/internal/protocol; SnapshotJob.Build the Job and the PodSnapshot
-- that are asked for, with ShapeCuInterposeCapture of the same package; SnapshotJob.Identity what
-- belongs to a SnapshotJob; SnapshotJob.Client the calls, SnapshotJob.Resources
-- reconcilePodSnapshotResources and what it calls, SnapshotJob.Reconcile Reconcile and the source
-- Job; SnapshotJob.Status the derivation of the status. The label and annotation checks of
-- apimachinery, path.Clean and the semantic equality of two statuses are parameters. It creates the
-- PodSnapshot that the PodSnapshot reconciler then fails or mirrors, and reads its conditions. What
-- stands behind a write is stated on the calls made before it (SnapshotJob.Evidence), which the
-- proofs follow through the handlers: SnapshotJob.Finish and SnapshotJob.Resolve for the capture,
-- SnapshotJob.Children for what is created, SnapshotJob.Accept for the Job, and SnapshotJob.Template
-- for the labels and containers of what is asked for.
--
-- Agent models the capture of agent/internal/controller: Agent.Types what it reads and its calls,
-- Agent.Failure capture_failure.go with
-- IsCleanupFailure of agent/internal/executor/checkpoint.go, Agent.Capture the parts of podsnapshotcontent.go and
-- chooseActiveContent of controller.go, Agent.Reconcile reconcileCapture and getCheckpointGate. It
-- executes the work orders that the PodSnapshot reconciler creates, and writes the result that this
-- mirrors. The executor, the probes, the path of an artifact and the node's runtime are calls with
-- any answer. The tries of the Ready write are the fuel of its loop, as in the source. Agent.Retries
-- runs that write on a server with an optimistic lock and competing writers, and Agent.Owner compares listings of the index.
--
-- Text is a list of code points (Prelude.Text), and times are seconds. The wording of a message is
-- kept as its format and arguments. The only other fuel is
-- that of the digits that itoa prints: it is one more than the number, and it has no more digits than that.
--
-- Not modelled: logs, metrics, watches and event predicates, deep copies, OpenAPI validation, the
-- worker pool and the sweep of non-target artifacts of the maintenance queue, the image, resources
-- and security context of the interposer's installer, the acknowledgement of the end-to-end tests,
-- the rest of the node agent (restores, the executor, CRIU, CUDA and the runtime), snapshotctl, and code in other languages.
pub mod Prelude
pub mod Agent
pub mod Compat
pub mod Kube
pub mod Maintenance
pub mod PodContract
pub mod PodSnapshot
pub mod SnapshotJob
