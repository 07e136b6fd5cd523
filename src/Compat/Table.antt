-- ===== src/Compat/Table.antt =====
-- The policy table of api/compat/compat.go, its registration by gate, and Compare.
use snapshot.Prelude.{Option, none, some, List, [], ◌∷◌, ◌++◌}
use snapshot.Compat.Types.{
  Libs, Gate, preflight, inspect, other, Check, cpu_arch, cpu_features, kernel_version,
  kernel_minimum, image_digest, memory_limit, cpu_limit, mount, gpu_model, gpu_count,
  driver_version, driver_minimum, Environment, Mismatch,
}
use snapshot.Compat.CpuFeatures.{cpu_features_rule}
use snapshot.Compat.Rules.{
  must_match, kernel_minimum_rule, driver_minimum_rule, mount_rule, gpu_model_rule, gpu_count_rule,
  at_least_source, image_digest_rule,
}

-- `check` of the source: one row of the policy table.
pub record Row : Type 0 where
  pub name : Check
  pub gate : Gate
  pub compare : Environment → Environment → List Mismatch

-- map[Gate][]check, which holds the two gates that registerChecks accepts.
pub record ByGate : Type 0 where
  pub at_preflight : List Row
  pub at_inspect : List Row

abbrev pub rows_at : ByGate → Gate → List Row
rows_at t preflight = t.at_preflight
rows_at t inspect = t.at_inspect
rows_at t (other _) = []

abbrev pub add_row : Gate → Row → ByGate → Option ByGate
add_row preflight r t = some (record t { at_preflight = t.at_preflight ++ r ∷ [] })
add_row inspect r t = some (record t { at_inspect = t.at_inspect ++ r ∷ [] })
add_row (other _) r t = none

abbrev pub and_then : Option ByGate → (ByGate → Option ByGate) → Option ByGate
and_then none f = none
and_then (some t) f = f t

unfoldable pub register_from : ByGate → List Row → Option ByGate
register_from t [] = some t
register_from t (r ∷ rows) = and_then (add_row r.gate r t) (λ u. register_from u rows)

abbrev pub no_rows : ByGate
no_rows = record { at_preflight = []; at_inspect = [] }

-- `none` is the panic of a rule at a gate that nothing calls.
unfoldable pub register_checks : List Row → Option ByGate
unfolding register_from
register_checks rows = register_from no_rows rows

module _ (k : Libs) where
  -- The arguments of registerChecks, in order.
  unfoldable pub policy : List Row
  policy =
      record {
        name = cpu_arch;
        gate = preflight;
        compare = λ s t. must_match s.cpu_arch t.cpu_arch;
      }
      ∷ record { name = cpu_features; gate = preflight; compare = cpu_features_rule k }
      ∷ record {
        name = kernel_version;
        gate = preflight;
        compare = λ s t. must_match s.kernel_version t.kernel_version;
      }
      ∷ record { name = kernel_minimum; gate = preflight; compare = kernel_minimum_rule }
      ∷ record { name = image_digest; gate = inspect; compare = image_digest_rule k }
      ∷ record {
        name = memory_limit;
        gate = preflight;
        compare = λ s t. at_least_source k s.memory_limit t.memory_limit;
      }
      ∷ record {
        name = cpu_limit;
        gate = preflight;
        compare = λ s t. at_least_source k s.cpu_limit t.cpu_limit;
      }
      ∷ record { name = mount; gate = inspect; compare = mount_rule }
      ∷ record { name = gpu_model; gate = inspect; compare = gpu_model_rule }
      ∷ record { name = gpu_count; gate = inspect; compare = gpu_count_rule }
      ∷ record {
        name = driver_version;
        gate = inspect;
        compare = λ s t. must_match s.driver_version t.driver_version;
      }
      ∷ record { name = driver_minimum; gate = inspect; compare = driver_minimum_rule }
      ∷ []

  abbrev or_no_rows : Option ByGate → ByGate
  or_no_rows none = no_rows
  or_no_rows (some t) = t

  -- checksByGate. The program does not start where registration panics.
  unfoldable pub checks_by_gate : ByGate
  unfolding register_checks policy
  checks_by_gate = or_no_rows (register_checks policy)

-- mismatch.Check = c.name
unfoldable pub named : Check → List Mismatch → List Mismatch
named c [] = []
named c (m ∷ ms) = record m { check = c } ∷ named c ms

unfoldable pub run_rows : List Row → Environment → Environment → List Mismatch
unfolding named
run_rows [] source target = []
run_rows (r ∷ rows) source target =
    named r.name (r.compare source target) ++ run_rows rows source target

unfoldable pub compare : Libs → Gate → Environment → Environment → List Mismatch
unfolding run_rows checks_by_gate
compare k gate source target = run_rows (rows_at (checks_by_gate k) gate) source target
