-- ===== src/Seal/Receipts.antt =====
-- A case and its seal job agree: the case is sealed when its job is minted, with the receipt of the
-- response that the job holds. Here no other request comes between the halves of a run.
pub mod Applied
pub mod Built
pub mod Served
use open_cawt.Base.{ℕ, Bool, true, false, Option, none, some, ◌≡◌}
use open_cawt.Session.Types.{CaseStatus, SealStatus, CaseRow, CaseDb}
use open_cawt.Seal.Types.{SealRequest, SealResponse, Minted, SealJob, Docket}
use open_cawt.Seal.Worker.{Mode, Answer, response, is_minted}
use open_cawt.Seal.Routes.{job_of, case_of}

abbrev pub is_sealed : CaseStatus → Bool
is_sealed CaseStatus.sealed = true
is_sealed _ = false

-- The marks of a seal on a case are those of the response that its job holds.
pub data Receipt (j : SealJob) (row : CaseRow) : Type 0 where
  open_case : is_minted j.status ≡ false → is_sealed row.status ≡ false → Receipt j row
  sealed_case :
      (m : Minted)
      → is_minted j.status ≡ true
      → j.response ≡ some (SealResponse.minted m)
      → row.status ≡ CaseStatus.sealed
      → row.seal_status ≡ SealStatus.sealed
      → row.seal_asset_id ≡ some m.asset_id
      → row.seal_tx_sig ≡ some m.tx_sig
      → row.seal_uri ≡ some m.sealed_uri
      → Receipt j row

pub record Names (j : SealJob) (row : CaseRow) : Type 0 where
  pub of_case : j.case_id ≡ row.case_id
  pub asks_case : j.request.case_id ≡ row.case_id
  pub asks_job : j.request.job_id ≡ j.job_id

abbrev pub Agrees : Option SealJob → CaseDb → Type 0
Agrees none db = is_sealed db.row.status ≡ false
Agrees (some j) db = Names j db.row × Receipt j db.row

abbrev pub IsConsistent : Docket → Type 0
IsConsistent d = Agrees d.job d.db

-- A worker answers for the job and the case that it is asked for.
abbrev pub IsHonest : (Mode → SealRequest → Answer) → Type 0
IsHonest worker =
    (mode : Mode) (request : SealRequest) (body : SealResponse)
    → worker mode request ≡ response body
    → (job_of body ≡ request.job_id) × (case_of body ≡ request.case_id)
