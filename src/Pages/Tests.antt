-- ===== src/Pages/Tests.antt =====
-- The pagination theorem at a request for the second page.
use mimir_backend.Prelude.{false, ◌≤◌, ◌≡◌, refl, some, none}
use mimir_backend.Pages.Parse.{
  pos, page_mode, ListQuerySpec, PaginationResult, parse_pagination, parse_page_pagination,
}
use mimir_backend.Pages.Limits.{parse_pagination-Fits}

abbrev usual : ListQuerySpec
usual = record { default_page_size = 20; max_page_size = 100; max_limit = 100 }

abbrev second : PaginationResult
second = record { mode = page_mode; page = pos 2; page_size = pos 20; cursor = none; limit = none }

parse_pagination-Fits_example :
    (false ≡ false) × (page_mode ≡ page_mode) × (1 ≤ 2) × ((1 ≤ 20) × (20 ≤ 100))
unfolding parse_pagination parse_page_pagination
parse_pagination-Fits_example =
    parse_pagination-Fits (some (pos 2)) none none none usual second refl
