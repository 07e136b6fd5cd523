-- ===== src/Maintenance/Retry.antt =====
-- processNextItem of queue.go: what becomes of a work item after it was processed.
use snapshot.Prelude.{
  ℕ, suc, ◌+◌, ◌<◌, ◌≤◌, ◌≡◌, refl, Bool, true, false, List, [], ◌∷◌, ltb, if◌then◌else◌, arith,
}
use snapshot.Maintenance.Client.{Mode, mode_sweep, mode_non_target_sweep, WorkItemKey}

-- maxKeyRetries
abbrev pub max_key_retries : ℕ
max_key_retries = 15

-- One processing of a key: whether the context was done before it, whether it failed, and whether
-- the context was done after it.
pub record Attempt : Type 0 where
  pub cancelled_before : Bool
  pub is_error : Bool
  pub cancelled_after : Bool

-- Forget, AddRateLimited, or neither.
pub data Disposition : Type 0 where
  forget requeue drop : Disposition

abbrev pub is_sweep : Mode → Bool
is_sweep mode_sweep = true
is_sweep mode_non_target_sweep = true
is_sweep _ = false

-- `requeues` is NumRequeues of the key.
unfoldable pub process_next_item : WorkItemKey → ℕ → Attempt → Disposition
process_next_item key requeues a =
    if a.cancelled_before
    then forget
    else if a.is_error
    then if a.cancelled_after
      then forget
      else if is_sweep key.mode
      then forget
      else if ltb requeues max_key_retries
      then requeue
      else drop
    else forget

-- The processings of a key from the time it is added until it leaves the queue, given what happens
-- in each: their number. AddRateLimited counts one requeue more, and without it the key is gone.
abbrev goes_on : Disposition → ℕ → ℕ
goes_on requeue rest = suc rest
goes_on forget rest = 1
goes_on drop rest = 1

unfoldable pub attempts_of : WorkItemKey → ℕ → List Attempt → ℕ
attempts_of key requeues [] = 0
attempts_of key requeues (a ∷ attempts) =
    let rest = attempts_of key (suc requeues) attempts in
    goes_on (process_next_item key requeues a) rest

process_next_item-requeue :
    (key : WorkItemKey) (n : ℕ) (a : Attempt)
    → process_next_item key n a ≡ requeue
    → (n < max_key_retries) × (is_sweep key.mode ≡ false)
unfolding process_next_item
process_next_item-requeue key n a e = ground arith

-- From any number of requeues that the queue can have counted, a key is processed at most until
-- the fifteenth requeue and once more, whatever happens in the attempts; a sweep is processed once.
pub attempts_of-max_key_retries :
    (key : WorkItemKey) (requeues : ℕ) (attempts : List Attempt)
    → requeues ≤ max_key_retries
    → (attempts_of key requeues attempts + requeues ≤ suc max_key_retries)
      × (is_sweep key.mode ≡ true → attempts_of key requeues attempts ≤ 1)
unfolding attempts_of process_next_item
attempts_of-max_key_retries key n [] h = (omega (arith, h), λ s. omega arith)
attempts_of-max_key_retries key n (a ∷ attempts) h =
    let ih = attempts_of-max_key_retries key (suc n) attempts in
    settle (process_next_item key n a) (attempts_of key (suc n) attempts)
      (process_next_item-requeue key n a) (λ room. ih (omega (arith, room)))
  where
    settle :
        (d : Disposition) (rest : ℕ)
        → (d ≡ requeue → (n < max_key_retries) × (is_sweep key.mode ≡ false))
        → (n < max_key_retries
            → (rest + suc n ≤ suc max_key_retries) × (is_sweep key.mode ≡ true → rest ≤ 1))
        → (goes_on d rest + n ≤ suc max_key_retries)
          × (is_sweep key.mode ≡ true → goes_on d rest ≤ 1)
    settle forget rest why more = (omega (arith, h), λ s. omega arith)
    settle drop rest why more = (omega (arith, h), λ s. omega arith)
    settle requeue rest why more =
        let (room, not_sweep) = why refl in (omega (arith, (more room).0), λ s. grind arith)
