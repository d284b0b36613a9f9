-- ===== src/Tests/Panels.antt =====
-- The replacement of a juror.
use open_cawt.Base.{refl}
use open_cawt.Session.Types.{CaseStatus, SessionStage, CaseRow, CaseDb}
use open_cawt.Session.Panel.{voting}
use open_cawt.Session.Panel.Turnover.{KeepsPanel, replace_late-KeepsPanel}
use open_cawt.Session.Engine.{replace_late}
use open_cawt.Tests.Courts.{env, row, case_in}

abbrev rec : CaseRow
rec = row SessionStage.voting CaseStatus.voting

abbrev db : CaseDb
db = case_in SessionStage.voting CaseStatus.voting

replace_late_example : KeepsPanel db.panel (replace_late env 20 rec voting db.panel db).panel
replace_late_example = replace_late-KeepsPanel env 20 rec voting db (refl, tt)
