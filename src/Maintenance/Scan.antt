-- ===== src/Maintenance/Scan.antt =====
-- scan.go: a complete and consistent list of the contents that exist.
use snapshot.Prelude.{
  ℕ, zero, suc, Str, Bool, not, ◌&&◌, List, [], ◌∷◌, ◌++◌, str_eq, codes, if◌then◌else◌,
}
use snapshot.Kube.Condition.{text, fmt}
use snapshot.Kube.Finalizer.{ControllerUtil}
use snapshot.Kube.Objects.{Reply, found, error}
use snapshot.Kube.Result.{Result, ok, refused, ◌>>=◌}
use snapshot.Maintenance.Client.{
  artifact_cleanup_finalizer, WorkItemKey, new_delete_content_key, ObjectMeta, Page, ListOptions,
  Answers,
}

pub record ContentScanResult : Type 0 where
  -- a set in the source
  pub existing_uids : List Str
  pub pending_deletes : List WorkItemKey

abbrev pub empty_scan : ContentScanResult
empty_scan = record { existing_uids = []; pending_deletes = [] }

-- The version that the first page sets and every later one must have.
unfoldable pub check_version : Str → Str → Result Str
check_version version page_version =
    if str_eq version []
    then if str_eq page_version []
      then refused (text (codes "PodSnapshotContent metadata list returned empty resource version"))
      else ok page_version
    else if not (str_eq page_version version)
    then refused (
        fmt (codes "PodSnapshotContent metadata list resource version changed from %q to %q")
          (version ∷ page_version ∷ []))
    else ok version

-- The options of a list call: a page of the limit, from the token on, from the API server itself.
abbrev pub list_options : Str → ListOptions
list_options token = record { limit = 500; continue_from = token; resource_version = [] }

abbrev pub listed : Reply Page → Result Page
listed (error err) = refused (text (codes "list PodSnapshotContent metadata"))
listed (found page) = ok page

abbrev pub answers_of : List Answers → Answers
answers_of [] = []
answers_of (a ∷ _) = a

abbrev pub later_answers : List Answers → List Answers
later_answers [] = []
later_answers (_ ∷ rest) = rest

abbrev pub or_retry : Result ContentScanResult → Result ContentScanResult → Result ContentScanResult
or_retry (ok scan) rest = ok scan
or_retry (refused e) rest = rest

module _ (u : ControllerUtil) where
  abbrev pub is_pending : ObjectMeta → Bool
  is_pending item = item.deleting && u.contains_finalizer item.finalizers artifact_cleanup_finalizer

  -- One object of a page that has a UID.
  unfoldable pub scan_item : ContentScanResult → ObjectMeta → ContentScanResult
  scan_item scan item = record {
    existing_uids = scan.existing_uids ++ item.uid ∷ [];
    pending_deletes =
        if is_pending item
        then scan.pending_deletes ++ new_delete_content_key item.name item.uid ∷ []
        else scan.pending_deletes;
  }

  unfoldable pub scan_items : ContentScanResult → List ObjectMeta → Result ContentScanResult
  scan_items scan [] = ok scan
  scan_items scan (item ∷ items) =
      let rest = scan_items (scan_item scan item) items in
      if str_eq item.uid []
      then refused (fmt (codes "PodSnapshotContent %q returned without UID") (item.name ∷ []))
      else rest

  -- collectContentScanResultOnce, with what answers its calls.
  unfoldable pub scan_pages : ContentScanResult → Str → Str → Answers → Result ContentScanResult
  scan_pages scan token version [] = refused (text (codes "context deadline exceeded"))
  scan_pages scan token version (answer ∷ answers) = do
    page ← listed (answer (list_options token))
    version' ← check_version version page.resource_version
    scan' ← scan_items scan page.items
    let rest = scan_pages scan' page.continue_token version' answers
    if str_eq page.continue_token []
        then ok scan'
        else if str_eq page.continue_token token
        then refused (
            fmt (codes "PodSnapshotContent metadata list repeated continuation token %q")
              (page.continue_token ∷ []))
        else rest

  unfoldable pub collect_content_scan_result_once : Answers → Result ContentScanResult
  collect_content_scan_result_once answers = scan_pages empty_scan [] [] answers

  -- collectContentScanResult: so many attempts, the first that succeeds counting.
  unfoldable pub collect_content_scan_result : ℕ → List Answers → Result ContentScanResult
  collect_content_scan_result zero answers =
      refused (text (codes "list PodSnapshotContent metadata failed"))
  collect_content_scan_result (suc attempts) answers =
      or_retry (collect_content_scan_result_once (answers_of answers))
        (collect_content_scan_result attempts (later_answers answers))
