-- ===== src/Jury/Pool.antt =====
-- The draw depends on the pool as a set.
use open_cawt.Base.{String, ◌≡◌, List}
use open_cawt.Base.Sets.{has, unique_sorted-eq}
use open_cawt.Jury.{Platform, JurySelectionInput, select_jury_deterministically}

-- Two lists of eligible ids with the same members, in any order and with any repetition, give the
-- same panel, scores, hashes and proof, or the same error.
pub select-eq_of_same_pool :
    (p : Platform) (input : JurySelectionInput) (ids : List String)
    → ((a : String) → has input.eligible_juror_ids a ≡ has ids a)
    → select_jury_deterministically p input
      ≡ select_jury_deterministically p (record input { eligible_juror_ids = ids })
unfolding select_jury_deterministically
select-eq_of_same_pool p input ids same = rw (unique_sorted-eq input.eligible_juror_ids ids same)
