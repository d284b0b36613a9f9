-- ===== src/Tests/Messages.antt =====
-- The messages of a stage, and the principles that a text cites.
use open_cawt.Base.{true, false, none, some, List, [], ◌∷◌, ◌≡◌, refl}
use open_cawt.Base.Errors.{ok}
use open_cawt.Session.Types.{CaseStatus, SessionStage, Side, Phase, CaseDb}
use open_cawt.Session.Store.{append_transcript_event}
use open_cawt.Session.Ticks.{Screening}
use open_cawt.Session.Stage.{stage_to_phase, next_submission_stage}
use open_cawt.Session.Engine.{process_case}
use open_cawt.Session.Engine.Deadlines.{stage_in}
use open_cawt.Validation.Principles.{RawId, Texts, Options, normalise_principle_ids}
use open_cawt.Validation.Principles.Laws.{AreIds, normalise-AreIds}
use open_cawt.Messages.{
  MessageBody, MessageEnv, posted, process_stage_message_action, upsert_submission,
}
use open_cawt.Messages.Posted.{IsPosted, message-IsPosted}
use open_cawt.Messages.Advance.{messages-advance}
use open_cawt.Tests.Courts.{env, row, case_in}

abbrev texts : Texts
texts = record { trim = λ s. s; number_of = λ s. none }

abbrev one_to_three : Options
one_to_three = record { required = true; min = some 1; max = some 3 }

abbrev cited : List RawId
cited = RawId.text "P10" ∷ RawId.number (some 2) ∷ RawId.text "p2" ∷ []

are_normalised : normalise_principle_ids texts one_to_three (some cited) ≡ ok (2 ∷ 10 ∷ [])
unfolding normalise_principle_ids
are_normalised = refl

normalise-AreIds_example : AreIds texts one_to_three cited (2 ∷ 10 ∷ [])
normalise-AreIds_example = normalise-AreIds texts one_to_three cited (2 ∷ 10 ∷ []) are_normalised

abbrev message_env : MessageEnv
message_env = record {
  js = texts;
  max_submission_chars_per_phase = 100;
  log = [];
  limits = record { evidence_per_hour = 1; submissions_per_hour = 1; ballots_per_hour = 1 };
  simulation_bypass_enabled = false;
}

abbrev message : Side → MessageBody
message side = record {
  side = side;
  stage = SessionStage.closing_addresses;
  text_length = 7;
  principle_citations = some cited;
  claim_principle_citations = [];
  content_hash = "m";
}

abbrev closing : CaseDb
closing = case_in SessionStage.closing_addresses CaseStatus.jury_selected

abbrev after_first : CaseDb
unfolding posted append_transcript_event upsert_submission
after_first = posted (message Side.prosecution) closing

abbrev after_both : CaseDb
unfolding posted append_transcript_event upsert_submission
after_both = posted (message Side.defence) after_first

first_taken :
    process_stage_message_action message_env (message Side.prosecution) "pro" 20 closing
    ≡ ok after_first
unfolding process_stage_message_action
first_taken = refl

second_taken :
    process_stage_message_action message_env (message Side.defence) "def" 30 after_first
    ≡ ok after_both
unfolding process_stage_message_action
second_taken = refl

message-IsPosted_example :
    IsPosted message_env (message Side.prosecution) "pro" 20 closing after_first
message-IsPosted_example =
    message-IsPosted message_env (message Side.prosecution) "pro" 20 closing after_first first_taken

messages-advance_example :
    stage_in
      (process_case env 40
        (row SessionStage.closing_addresses CaseStatus.jury_selected)
        none
        Screening.unavailable
        after_both).db
    ≡ next_submission_stage SessionStage.closing_addresses
unfolding stage_to_phase
messages-advance_example =
    messages-advance message_env message_env (message Side.prosecution) (message Side.defence) "pro"
      "def" 20 30 closing after_first after_both env 40
      (row SessionStage.closing_addresses CaseStatus.jury_selected) none Screening.unavailable
      Phase.closing first_taken second_taken refl refl refl refl refl refl refl
