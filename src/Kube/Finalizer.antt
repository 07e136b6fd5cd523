-- ===== src/Kube/Finalizer.antt =====
-- The finalizer functions of sigs.k8s.io/controller-runtime/pkg/controller/controllerutil.
use snapshot.Prelude.{Str, Bool, List}

pub record ControllerUtil : Type 0 where
  pub contains_finalizer : List Str → Str → Bool
  pub add_finalizer : List Str → Str → List Str
  pub remove_finalizer : List Str → Str → List Str
