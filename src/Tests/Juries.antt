-- ===== src/Tests/Juries.antt =====
-- Panels drawn from three jurors.
use open_cawt.Base.{◌≤◌, String, [], ◌∷◌, ◌≡◌, length, str_le, arith}
use open_cawt.Base.Errors.{ok}
use open_cawt.Base.Sets.{has, unique, unique_sorted}
use open_cawt.Base.Sorting.{sort, insert}
use open_cawt.Jury.{JurySelectionResult, select_jury_deterministically}
use open_cawt.Jury.Panel.{IsPanel, select_jury-IsPanel}
use open_cawt.Tests.Courts.{plain, plain-IsPreorder, pool}

enough : pool.jury_size ≤ length (unique_sorted pool.eligible_juror_ids)
unfolding unique_sorted unique sort insert str_le
enough = omega arith

select_jury_example :
    (r : JurySelectionResult) × ((select_jury_deterministically plain pool ≡ ok r)
      × IsPanel plain pool r)
select_jury_example = select_jury-IsPanel plain pool plain-IsPreorder enough

same_pool : (a : String) → has ("bo" ∷ "al" ∷ "bo" ∷ "cy" ∷ []) a ≡ has ("cy" ∷ "bo" ∷ "al" ∷ []) a
same_pool a = ground arith
