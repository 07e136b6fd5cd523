-- ===== src/Maintenance/Listing.antt =====
-- What a scan that succeeds has seen.
use snapshot.Prelude.{
  ℕ, zero, suc, ◌≡◌, ◌≢◌, refl, sym, ap, ◌∙◌, subst, inl, inr, ◌⊎◌, Str, Bool, true, false, not,
  List, [], ◌∷◌, ◌++◌, str_eq, str_eq_iff, map, if◌then◌else◌, if-cases, arith,
}
use mathlib.Core.List.{append-nil, append_assoc, Mem, mem-cons_self, mem-cons_of_mem}
use snapshot.Kube.Finalizer.{ControllerUtil}
use snapshot.Kube.Objects.{Reply, found, error}
use snapshot.Kube.Result.{Result, ok, refused, bind-ok, ok-injective, guard-ok}
use snapshot.Maintenance.Client.{
  WorkItemKey, new_delete_content_key, ObjectMeta, Page, ListOptions, Answers,
}
use snapshot.Maintenance.Scan.{
  ContentScanResult, is_pending, scan_item, scan_items, check_version, list_options, listed,
  scan_pages, collect_content_scan_result_once, collect_content_scan_result, or_retry,
}

-- Pages of one version, each the answer to the next call, which asks for a page of the limit from
-- the token on; the token is the one of the page before, and the last page has none.
pub data IsListing (version : Str) : Str → Answers → List Page → Type 0 where
  final :
      {token : Str} {answer : ListOptions → Reply Page} {answers : Answers} {page : Page}
      → answer (record { limit = 500; continue_from = token; resource_version = [] }) ≡ found page
      → page.resource_version ≡ version
      → page.continue_token ≡ []
      → IsListing version token (answer ∷ answers) (page ∷ [])
  further :
      {token : Str} {answer : ListOptions → Reply Page} {answers : Answers} {page : Page}
      {pages : List Page}
      → answer (record { limit = 500; continue_from = token; resource_version = [] }) ≡ found page
      → page.resource_version ≡ version
      → page.continue_token ≢ []
      → page.continue_token ≢ token
      → IsListing version page.continue_token answers pages
      → IsListing version token (answer ∷ answers) (page ∷ pages)

listed-found : (r : Reply Page) {page : Page} → listed r ≡ ok page → r ≡ found page
listed-found (found page) e = ap found (ok-injective e)
listed-found (error err) e = grind arith

abbrev pub items_of : List Page → List ObjectMeta
items_of [] = []
items_of (page ∷ pages) = page.items ++ items_of pages

str_eq_ne : (s t : Str) → str_eq s t ≡ false → s ≢ t
str_eq_ne s t h = λ e. let same = (str_eq_iff s t).1 e in grind arith

str_eq-nil_ne : (s : Str) → str_eq s [] ≡ false → s ≢ []
unfolding str_eq
str_eq-nil_ne [] h = grind arith
str_eq-nil_ne (c ∷ s) h = λ e. grind arith

-- The version of a page that is let through.
check_version-lem :
    (version page_version : Str) {listed : Str}
    → check_version version page_version ≡ ok listed
    → (page_version ≡ listed) × (listed ≢ []) × ((version ≢ []) → listed ≡ version)
unfolding check_version str_eq
check_version-lem [] pv e =
    let (some, same) = guard-ok (str_eq pv []) _ _ e in
    (
      ok-injective same,
      subst (λ x. x ≢ []) (ok-injective same) (str_eq-nil_ne pv some),
      λ ne. elim (ne refl) [ ],
    )
check_version-lem (c ∷ s) pv e =
    let (equal, same) = guard-ok (not (str_eq pv (c ∷ s))) _ _ e in
    (
      (str_eq_iff pv (c ∷ s)).0 (not-false _ equal) ∙ ok-injective same,
      subst (λ x. x ≢ []) (ok-injective same) (λ h. grind arith),
      λ _. sym (ok-injective same),
    )
  where
    not-false : (b : Bool) → not b ≡ false → b ≡ true
    not-false true h = refl
    not-false false h = grind arith

or_retry-cases :
    (first : Result ContentScanResult) {rest : Result ContentScanResult} {scan : ContentScanResult}
    → or_retry first rest ≡ ok scan
    → (first ≡ ok scan) ⊎ (rest ≡ ok scan)
or_retry-cases (ok s) e = inl e
or_retry-cases (refused m) e = inr e

module _ (u : ControllerUtil) where
  -- The contents among them that wait for their cleanup, as work items.
  abbrev pub pending_keys : List ObjectMeta → List WorkItemKey
  pending_keys [] = []
  pending_keys (item ∷ items) =
      let rest = pending_keys items in
      if is_pending u item then new_delete_content_key item.name item.uid ∷ rest else rest

  pending_keys-append :
      (xs ys : List ObjectMeta) → pending_keys (xs ++ ys) ≡ pending_keys xs ++ pending_keys ys
  pending_keys-append [] ys = refl
  pending_keys-append (x ∷ xs) ys =
      ap (λ rest. if is_pending u x then new_delete_content_key x.name x.uid ∷ rest else rest)
        (pending_keys-append xs ys)
      ∙ push (is_pending u x) _ (pending_keys xs) (pending_keys ys)
    where
      push :
          (b : Bool) (k : WorkItemKey) (ks ls : List WorkItemKey)
          → (if b then k ∷ (ks ++ ls) else ks ++ ls) ≡ (if b then k ∷ ks else ks) ++ ls
      push true k ks ls = refl
      push false k ks ls = refl

  -- The scan that has seen just these objects.
  abbrev pub scan_of : List ObjectMeta → ContentScanResult
  scan_of items = record {
    existing_uids = map (λ i. i.uid) items;
    pending_deletes = pending_keys items;
  }

  abbrev with_uids : List Str → List WorkItemKey → ContentScanResult
  with_uids uids keys = record { existing_uids = uids; pending_deletes = keys }

  map_uid-snoc :
      (items : List ObjectMeta) (item : ObjectMeta)
      → map (λ i. i.uid) items ++ item.uid ∷ [] ≡ map (λ i. i.uid) (items ++ item ∷ [])
  map_uid-snoc [] item = refl
  map_uid-snoc (i ∷ items) item = ap (λ l. i.uid ∷ l) (map_uid-snoc items item)

  scan_item-scan_of :
      (seen : List ObjectMeta) (item : ObjectMeta)
      → scan_item u (scan_of seen) item ≡ scan_of (seen ++ item ∷ [])
  unfolding scan_item
  scan_item-scan_of seen item =
      ap (λ l. with_uids l (scan_item u (scan_of seen) item).pending_deletes)
        (map_uid-snoc seen item)
      ∙ ap (with_uids (map (λ i. i.uid) (seen ++ item ∷ []))) (
          last (is_pending u item) _ (pending_keys seen)
          ∙ sym (pending_keys-append seen (item ∷ [])))
    where
      last :
          (b : Bool) (k : WorkItemKey) (ks : List WorkItemKey)
          → (if b then ks ++ k ∷ [] else ks) ≡ ks ++ (if b then k ∷ [] else [])
      last true k ks = refl
      last false k ks = sym (append-nil ks)

  scan_items-scan_of :
      (seen items : List ObjectMeta) {result : ContentScanResult}
      → scan_items u (scan_of seen) items ≡ ok result
      → result ≡ scan_of (seen ++ items)
  unfolding scan_items
  scan_items-scan_of seen [] e = sym (ok-injective e) ∙ ap scan_of (sym (append-nil seen))
  scan_items-scan_of seen (item ∷ items) e =
      let (_, e1) = guard-ok (str_eq item.uid []) _ _ e in
      scan_items-scan_of (seen ++ item ∷ []) items
        (ap (λ s. scan_items u s items) (sym (scan_item-scan_of seen item)) ∙ e1)
      ∙ ap scan_of (append_assoc seen (item ∷ []) items)

  -- The rest of a scan, after pages of the version that it began with.
  scan_pages-IsListing :
      (seen : List ObjectMeta) (token version : Str) (answers : Answers)
      {result : ContentScanResult}
      → scan_pages u (scan_of seen) token version answers ≡ ok result
      → (listed : Str) × (pages : List Page) × IsListing listed token answers pages
        × ((version ≢ []) → listed ≡ version)
        × (listed ≢ [])
        × (result ≡ scan_of (seen ++ items_of pages))
  unfolding scan_pages
  scan_pages-IsListing seen token version [] e = grind arith
  scan_pages-IsListing seen token version (answer ∷ answers) e =
      let (page, e0, e1') = bind-ok (listed (answer (list_options token))) e in
      let answered = listed-found _ e0 in
      let (vers, e1, e2) = bind-ok (check_version version page.resource_version) e1' in
      let (scan, e3, e4) = bind-ok (scan_items u (scan_of seen) page.items) e2 in
      let (version_ok, listed_ne, kept) = check_version-lem version page.resource_version e1 in
      let seen1 = scan_items-scan_of seen page.items e3 in
      elim (if-cases (str_eq page.continue_token []) e4) [
        | inl (last, same) ↦ (
          vers,
          page ∷ [],
          final answered version_ok ((str_eq_iff page.continue_token []).0 last),
          kept,
          listed_ne,
          sym (ok-injective same)
              ∙ seen1
              ∙ ap (λ l. scan_of (seen ++ l)) (sym (append-nil page.items)),
        )
        | inr (more, e5) ↦
            let (new, e6) = guard-ok (str_eq page.continue_token token) _ _ e5 in
            let (l, pages, listing, same_version, _, result_is) =
              scan_pages-IsListing (seen ++ page.items) page.continue_token vers answers
                (ap (λ s. scan_pages u s page.continue_token vers answers) (sym seen1) ∙ e6) in
            (
              vers,
              page ∷ pages,
              further answered version_ok (str_eq-nil_ne page.continue_token more)
                  (str_eq_ne page.continue_token token new)
                  (subst (λ x. IsListing x page.continue_token answers pages)
                    (same_version listed_ne) listing),
              kept,
              listed_ne,
              result_is ∙ ap scan_of (append_assoc seen page.items (items_of pages)),
            )
      ]

  -- A scan that succeeds is of one attempt: its calls ask for pages of 500, the first from the
  -- start and each later one from the token of the page before, up to a page without a token, and
  -- all pages are of one version. It has the UID of every object on them, in their order, and a
  -- work item for each that is being deleted and waits for its cleanup.
  pub collect_content_scan_result-IsListing :
      (attempts : ℕ) (answers : List Answers) {scan : ContentScanResult}
      → collect_content_scan_result u attempts answers ≡ ok scan
      → (version : Str) × (pages : List Page) × (attempt : Answers) × Mem attempt answers
        × (version ≢ [])
        × IsListing version [] attempt pages
        × (scan ≡ scan_of (items_of pages))
  unfolding collect_content_scan_result collect_content_scan_result_once scan_pages
  collect_content_scan_result-IsListing zero answers e = grind arith
  collect_content_scan_result-IsListing (suc n) [] e = collect_content_scan_result-IsListing n [] e
  collect_content_scan_result-IsListing (suc n) (a ∷ answers) e =
      elim (or_retry-cases (scan_pages u (scan_of []) [] [] a) e) [
        | inl here ↦
            let (version, pages, listing, _, ne, result) = scan_pages-IsListing [] [] [] a here in
            (version, pages, a, mem-cons_self, ne, listing, result)
        | inr later ↦
            let (version, pages, attempt, mem, ne, listing, result) =
              collect_content_scan_result-IsListing n answers later in
            (version, pages, attempt, mem-cons_of_mem a mem, ne, listing, result)
      ]
