-- ===== src/Search/Controller/Pages.antt =====
-- The pages of an answer, and the criteria that reach the use case.
use advanced_search_api.Base.{ℕ, zero, suc, ◌+◌, ◌*◌, ◌/◌, ◌≤◌, ◌<◌, ◌≡◌, arith}
use advanced_search_api.Base.Division.{quotient_bounds}
use advanced_search_api.Search.Controller.{total_pages}

total_pages_quotient : (total n : ℕ) → total_pages total (suc n) ≡ (total + n) / suc n
unfolding total_pages
total_pages_quotient total n = ground arith

-- All hits fit on the pages that are told, and the last of these is not empty: page p shows hits from
-- number (p - 1) * size on, so a page beyond the last is empty and no hit is out of reach.
pub total_pages_bounds :
    (total size : ℕ)
    → 1 ≤ size
    → (total ≤ total_pages total size * size) × (total_pages total size * size < total + size)
total_pages_bounds total zero h = absurd (omega arith)
total_pages_bounds total (suc n) h =
    let (lo, hi) = quotient_bounds (total + n) (suc n) (omega arith) in
    let lo' : total ≤ (total + n) / suc n * suc n = grind arith in
    let hi' : (total + n) / suc n * suc n < total + suc n = omega arith in
    rw (total_pages_quotient total n) (lo', hi')
