-- ===== src/Maintenance/Examples.antt =====
-- A content that waits for its cleanup, a list of two pages, and a key that keeps failing.
use snapshot.Prelude.{
  ◌+◌, ◌≤◌, ◌≡◌, ◌≢◌, refl, Str, true, false, List, [], ◌∷◌, codes, str_eq, contains, if◌then◌else◌,
  arith,
}
use mathlib.Core.List.{Mem}
use snapshot.Kube.Prog.{Holds}
use snapshot.Kube.Objects.{Reply, found, error, other_error}
use snapshot.Kube.Result.{ok}
use snapshot.Kube.Samples.{sample_util}
use snapshot.Maintenance.Client.{
  artifact_cleanup_finalizer, WorkItemKey, mode_delete_content, ObjectMeta, Page, ListOptions,
  Answers,
}
use snapshot.Maintenance.Scan.{
  scan_item, scan_items, check_version, scan_pages, collect_content_scan_result_once,
  collect_content_scan_result,
}
use snapshot.Maintenance.Process.{QueueConfig, process_delete_content, process_sweep}
use snapshot.Maintenance.Listing.{
  IsListing, items_of, scan_of, collect_content_scan_result-IsListing,
}
use snapshot.Maintenance.Cleanup.{AnyEnd, CleansUpFirst, process_delete_content-CleansUpFirst}
use snapshot.Maintenance.Orphans.{DeletesOrphans, process_sweep-DeletesOrphans}
use snapshot.Maintenance.Retry.{Attempt, attempts_of, attempts_of-max_key_retries, is_sweep}

abbrev sample_config : QueueConfig
sample_config = record {
  store_id = codes "store-1";
  batch_size = 10;
  list_attempts = 3;
  is_registered = true;
}

abbrev sample_key : WorkItemKey
sample_key = record { mode = mode_delete_content; name = codes "content-a"; uid = codes "a" }

process_delete_content-CleansUpFirst_example :
    Holds
      (CleansUpFirst sample_util sample_config sample_key)
      AnyEnd
      []
      (process_delete_content sample_util sample_config sample_key)
process_delete_content-CleansUpFirst_example =
    process_delete_content-CleansUpFirst sample_util sample_config sample_key

process_sweep-DeletesOrphans_example :
    Holds
      (DeletesOrphans sample_util sample_config)
      AnyEnd
      []
      (process_sweep sample_util sample_config)
process_sweep-DeletesOrphans_example = process_sweep-DeletesOrphans sample_util sample_config

abbrev content_a : ObjectMeta
content_a = record {
  name = codes "content-a";
  uid = codes "a";
  deleting = true;
  finalizers = artifact_cleanup_finalizer ∷ [];
}

abbrev content_b : ObjectMeta
content_b = record { name = codes "content-b"; uid = codes "b"; deleting = false; finalizers = [] }

abbrev first_page : Page
first_page = record {
  resource_version = codes "7";
  continue_token = codes "c1";
  items = content_a ∷ [];
}

abbrev last_page : Page
last_page = record { resource_version = codes "7"; continue_token = []; items = content_b ∷ [] }

-- A server that serves the second page for the token of the first.
abbrev serves : ListOptions → Reply Page
serves options =
    if str_eq options.continue_from (codes "c1") then found last_page else found first_page

abbrev fails : ListOptions → Reply Page
fails options = error (other_error [])

-- The first attempt fails on its second page.
abbrev two_attempts : List Answers
two_attempts = (serves ∷ fails ∷ []) ∷ (serves ∷ serves ∷ []) ∷ []

scans :
    collect_content_scan_result sample_util 3 two_attempts
    ≡ ok (scan_of sample_util (content_a ∷ content_b ∷ []))
unfolding collect_content_scan_result collect_content_scan_result_once scan_pages check_version
    scan_items scan_item str_eq contains
scans = refl

collect_content_scan_result-IsListing_example :
    (version : Str) × (pages : List Page) × (attempt : Answers) × Mem attempt two_attempts
    × (version ≢ [])
    × IsListing version [] attempt pages
    × (scan_of sample_util (content_a ∷ content_b ∷ []) ≡ scan_of sample_util (items_of pages))
collect_content_scan_result-IsListing_example =
    collect_content_scan_result-IsListing sample_util 3 two_attempts scans

abbrev failing : Attempt
failing = record { cancelled_before = false; is_error = true; cancelled_after = false }

attempts_of-max_key_retries_example :
    (attempts_of sample_key 14 (failing ∷ failing ∷ failing ∷ []) + 14 ≤ 16)
    × (is_sweep sample_key.mode ≡ true
        → attempts_of sample_key 14 (failing ∷ failing ∷ failing ∷ []) ≤ 1)
attempts_of-max_key_retries_example =
    attempts_of-max_key_retries sample_key 14 (failing ∷ failing ∷ failing ∷ []) (omega arith)
