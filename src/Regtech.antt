-- ===== src/Regtech.antt =====
-- `collect_blacklist_data` of collector/core/regtech/collector.py: pages until an empty one, each
-- tried three times, strategy after strategy until one gives data. What `_collect_single_page`
-- answers for a page and an attempt, what the Excel download gives, the digest of a page and the
-- environment's block threshold are arguments; an item is of any type. Here a login after an
-- expired session shows only in what the site answers next, and no call raises but the two errors;
-- Request.Pages has the loops with the session.
mod Tests
pub mod Attempts
pub mod Pages
pub mod Response
pub mod Processing
pub mod Request
pub mod Session
use blacklist.Prelude.{
  ℕ, zero, suc, ◌+◌, ◌-◌, ◌*◌, ◌/◌, max, min, ◌<◌, Bool, true, false, ◌&&◌, ◌||◌, not, Option, none,
  some, List, [], ◌∷◌, ◌++◌, ◌==◌, leb, ltb, if◌then◌else◌, String, str_eq, length,
}

abbrev pub page_size_limit : ℕ
page_size_limit = 50

abbrev pub page_attempts : ℕ
page_attempts = 3

abbrev pub memory_limit : ℕ
memory_limit = 10000000

-- `_last_failure_kind`, as it is read after an attempt that gave no page.
pub data FailureKind : Type 0 where
  block_suspect session_expired download_too_large curl_error http_error : FailureKind

pub data Answer {ℓ} (Item : Type ℓ) : Type ℓ where
  page_data : List Item → Answer Item
  no_page : Option FailureKind → Answer Item

-- The two exceptions: page and attempts, and for a block its signals in a row.
pub data Error : Type 0 where
  page_collection_error : ℕ → ℕ → Error
  collection_blocked : ℕ → ℕ → ℕ → Error

pub data Result {ℓ} (A : Type ℓ) : Type ℓ where
  returned : A → Result A
  raised : Error → Result A
  out_of_fuel : Result A

unfoldable pub effective_page_size : ℕ → ℕ
effective_page_size page_size = min page_size page_size_limit

unfoldable pub effective_max_pages : ℕ → Option ℕ → Option ℕ
effective_max_pages page_size none = none
effective_max_pages page_size (some max_pages) =
    let size = effective_page_size page_size in
    some
      (if size == page_size then max_pages else max 1 ((page_size * max_pages + size - 1) / size))

unfoldable pub signals_after : Option FailureKind → ℕ → ℕ
signals_after (some block_suspect) signals = suc signals
signals_after _ signals = 0

-- `page_num <= effective_max_pages`
unfoldable pub may_continue : Option ℕ → ℕ → Bool
may_continue none page_num = true
may_continue (some pages) page_num = leb page_num pages

-- `effective_max_pages is not None`
abbrev pub is_bounded : Option ℕ → Bool
is_bounded none = false
is_bounded (some pages) = true

unfoldable pub member : String → List String → Bool
member s [] = false
member s (t ∷ ts) = str_eq t s || member s ts

module _ {ℓ} {Item : Type ℓ} (threshold : ℕ) (fetch : ℕ → ℕ → Answer Item) where
  -- The `for attempt`: `left` attempts remain, `attempt` is the next one.
  unfoldable pub attempt_page : ℕ → ℕ → ℕ → ℕ → Result (List Item)
  attempt_page zero page_num attempt signals = raised (page_collection_error page_num page_attempts)
  attempt_page (suc left) page_num attempt signals = elim (fetch page_num attempt) [
    | page_data items ↦ returned items
    | no_page kind ↦ elim (leb threshold (signals_after kind signals)) [
      | true ↦ raised (collection_blocked page_num attempt (signals_after kind signals))
      | false ↦ attempt_page left page_num (suc attempt) (signals_after kind signals)
    ]
  ]

  module _ (signature : List Item → String) (max_pages : Option ℕ) where
    -- A page that came: an empty one ends the strategy, a repeated one is an error.
    unfoldable pub collect_pages : ℕ → ℕ → List String → List Item → Result (List Item)
    collect_pages zero page_num seen strategy_data = out_of_fuel
    collect_pages (suc fuel) page_num seen strategy_data =
        if may_continue max_pages page_num
        then elim (attempt_page page_attempts page_num 1 0) [
          | raised e ↦ raised e
          | out_of_fuel ↦ out_of_fuel
          | returned [] ↦ returned strategy_data
          | returned (item ∷ items) ↦ elim (member (signature (item ∷ items)) seen) [
            | true ↦ raised (page_collection_error page_num 1)
            | false ↦ elim (leb memory_limit (length (strategy_data ++ item ∷ items))) [
              | true ↦ returned (strategy_data ++ item ∷ items)
              | false ↦
                  collect_pages fuel (suc page_num) (signature (item ∷ items) ∷ seen)
                    (strategy_data ++ item ∷ items)
            ]
          ]
        ]
        else returned strategy_data

-- A date strategy: what the site answers for its dates, and what its Excel file gives, with the
-- day of the newest date in it where that parses; none where the strategy has no dates.
pub record Strategy {ℓ} (Item : Type ℓ) : Type ℓ where
  pub fetch : ℕ → ℕ → Answer Item
  pub excel : Option (List Item × Option ℕ)

unfoldable pub excel_is_fresh : ℕ → Option ℕ → Bool
excel_is_fresh today none = true
excel_is_fresh today (some latest) = leb (today - latest) 3

-- The Excel data that a strategy takes without any page.
unfoldable pub excel_data {ℓ} :
    {Item : Type ℓ} → ℕ → Bool → Option (List Item × Option ℕ) → List Item
excel_data today excel_enabled none = []
excel_data today excel_enabled (some (items, latest)) =
    if excel_enabled && excel_is_fresh today latest then items else []

module _ {ℓ} {Item : Type ℓ} (threshold : ℕ) (signature : List Item → String) (max_pages : Option ℕ)
    (today : ℕ) (excel_enabled : Bool) where
  -- The strategies in turn, up to the first that gives data.
  unfoldable pub collect_strategies : List (Strategy Item) → Result (List Item)
  collect_strategies [] = returned []
  collect_strategies (s ∷ strategies) = elim (excel_data today excel_enabled s.excel) [
    | item ∷ items ↦ returned (item ∷ items)
    | [] ↦ elim (collect_pages threshold s.fetch signature max_pages memory_limit 1 [] []) [
      | returned [] ↦ collect_strategies strategies
      | returned (item ∷ items) ↦ returned (item ∷ items)
      | raised e ↦ raised e
      | out_of_fuel ↦ out_of_fuel
    ]
  ]

-- The whole call. `excel_allowed` says that DISABLE_EXCEL_COLLECTION is not set to true,
-- `strategies` what each strategy gives with a page size, and `post_process` is what is done with
-- the data at the end.
unfoldable pub collect_blacklist_data {ℓ} :
    {Item : Type ℓ}
    → ℕ
    → (List Item → String)
    → (List Item → List Item)
    → Bool
    → Bool
    → ℕ
    → (ℕ → List (Strategy Item))
    → ℕ
    → Option ℕ
    → Result (List Item)
collect_blacklist_data threshold signature post_process authenticated excel_allowed today strategies
      page_size max_pages =
    if not authenticated
    then returned []
    else (let pages = effective_max_pages page_size max_pages in
        elim (collect_strategies threshold signature pages today (is_bounded pages && excel_allowed)
          (strategies (effective_page_size page_size))) [
            | returned collected_data ↦ returned (post_process collected_data)
            | raised e ↦ raised e
            | out_of_fuel ↦ out_of_fuel
          ])
