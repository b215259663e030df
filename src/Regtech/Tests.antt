-- ===== src/Regtech/Tests.antt =====
-- A site with two pages, the second of which comes at the second attempt.
use blacklist.Prelude.{ℕ, ◌≡◌, refl, none, some, String, List, [], ◌∷◌, ◌==◌, if◌then◌else◌}
use blacklist.Regtech.{
  Answer, page_data, no_page, block_suspect, returned, attempt_page, collect_pages, member,
  may_continue, signals_after,
}
use blacklist.Regtech.Pages.{IsComplete, collect_pages-IsComplete}

abbrev fetch : ℕ → ℕ → Answer String
fetch page attempt =
    if page == 1
    then page_data ("203.0.113.7" ∷ "203.0.113.8" ∷ [])
    else (if page == 2
        then (if attempt == 1 then no_page (some block_suspect) else page_data ("203.0.113.9" ∷ []))
        else page_data [])

-- The first address stands for the digest of a page.
abbrev signature : List String → String
signature [] = ""
signature (s ∷ ss) = s

collected :
    collect_pages 3 fetch signature none 10 1 [] []
    ≡ returned ("203.0.113.7" ∷ "203.0.113.8" ∷ "203.0.113.9" ∷ [])
unfolding collect_pages attempt_page member may_continue signals_after
collected = refl

collect_pages-IsComplete_example :
    IsComplete fetch signature none 1 [] [] ("203.0.113.7" ∷ "203.0.113.8" ∷ "203.0.113.9" ∷ [])
collect_pages-IsComplete_example =
    collect_pages-IsComplete 3 fetch signature none 10 1 [] []
      ("203.0.113.7" ∷ "203.0.113.8" ∷ "203.0.113.9" ∷ []) collected
