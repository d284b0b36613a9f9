-- ===== src/Lib.antt =====
-- Verification library of OpenCawt, a court for software agents: a server that takes a dispute from
-- its filing, through a jury drawn by a public random beacon and a session with deadlines, to a
-- verdict.
--
-- The parts, and how they interact:
-- - Verdict: server/services/verdict.ts. Verdict/Tally has tallyClaimVotes and majorityFinding,
--   Verdict/Remedies has majorityRemedy, Verdict/Compute has deriveOverallOutcome and
--   computeDeterministicVerdict. Ballots and claims come from the session, and the hash of the
--   bundle is a parameter.
-- - Jury: server/services/jury.ts. selectJuryDeterministically, pickReplacementFromProof and
--   withReplacementInProof. The platform (SHA-256, JSON.stringify of a text, localeCompare) is a
--   record of functions; theorems that need the order of the locale say so.
-- - Session: server/services/sessionEngine.ts on the rows of server/db/repository.ts.
--   Session/Types has the rows of one case, Session/Store the statements that write them,
--   Session/Panel has replaceJuror, which draws from Jury, Session/Stage has setStage and voidCase,
--   Session/Ticks what a tick brings and takes, Session/Judging the screening by the judge, and
--   Session/Engine the other stages and processCase, which joins them. A step maps the rows, the
--   entry of the retry table and the answer of the judge to the rows, the entry and the callbacks
--   that the engine makes.
-- - Seal: server/services/sealing.ts, with the statements of server/db/repository.ts on seal_jobs.
--   Seal/Types has the job, the request to the mint worker and its response, Seal/Jobs the
--   statements, Seal/Worker buildWorkerSealRequest, enqueueSealJob, retrySealJob, applySealResult
--   and runSealJob in its two halves, before and after the call of the worker, and Seal/Routes the
--   routes seal-result, redrive and retry of server/main.ts. A docket is a case with its one job.
-- - Defence: claimDefenceAssignment of server/db/repository.ts and its route.
-- - Close: closeCasePipeline of server/main.ts, which Session asks for at the end of a vote; it joins
--   Verdict, the rows of Session and Seal. Close/Vote has the verdict on the rows and the rulings on
--   ties, Close/Pipeline what is written. The judge and the hashes are parameters.
-- - Ballots: the route POST /api/cases/:id/ballots of server/main.ts, with addBallot and
--   countActionInWindow of server/db/repository.ts and enforceActionRateLimit of
--   server/services/rateLimit.ts. It writes the ballots that Close reads. What
--   server/services/validation.ts makes of the fields is part of the body.
-- - Readiness: the route POST /api/cases/:id/juror-ready of server/main.ts, which makes the jurors
--   ready that Session waits for.
-- - Filing: handlePostCaseFile of server/main.ts, which turns a draft into a case that Session runs.
--   Filing.antt has what comes before the transaction, with computeInitialJurySelection and
--   enforceFilingLimit, Filing/Wallet the test of a payer wallet, Filing/Commit the transaction with
--   setCaseFiled and persistInitialJurySelection. The two halves are apart because other requests
--   may come between them; a registry has the cases and the payments that were taken.
-- - Messages: processStageMessageAction of server/main.ts, with upsertSubmission: the submissions
--   that Session waits for in its stages.
-- - Ocp: the agreements of OCP/server/main.ts, a second service on tables of its own. Ocp.antt has the
--   statements of OCP/server/db/repository.ts, Ocp/Handlers the requests that register and suspend
--   agents and that propose, accept and cancel agreements, in the pieces between their awaits,
--   Ocp/Mints what OCP/server/mint/index.ts writes to a receipt, and Ocp/Runs the service, where
--   pieces of different requests alternate. A request brings the hash and the code of its terms;
--   notifications and the registration of the parties with the court are left out.
-- - Validation: server/services/validation.ts. Validation/Principles has normalisePrincipleIds,
--   which Messages calls, Validation/Hosts the hosts that are refused, Validation/Urls
--   validateNotifyUrl and validateEvidenceAttachmentUrls.
-- - Shared: Shared/Base58 is shared/base58.ts, Shared/Hex the hexadecimal of shared/hash.ts,
--   Shared/CanonicalJson is shared/canonicalJson.ts.
-- - Requests: Requests/Signed has verifySignedMutation and recordSignedMutation of
--   server/services/auth.ts; Requests/Idempotency has server/services/idempotency.ts with its table,
--   and handleSignedMutationWithIdempotency of server/main.ts, for any handler; Requests/Json has
--   the payloads that are kept for a replay. Requests/Idempotency/Table has the table as a map from
--   keys to rows, which Requests/Idempotency/Refines compares with the rows.
-- - Base has the library names, lists, sorting, sets of texts and API errors; Tests has the theorems
--   at concrete inputs.
--
-- Numbers and times. Counts and times are natural numbers, times in milliseconds; the timestamp of
-- a request is an integer. Every function is structurally recursive, but for the loop of base 58 that
-- spills a carry: it runs on as many rounds as the carry, which is divided by the base in each, and
-- Shared/Base58/Digits proves that no digit is lost.
--
-- What is simplified. The work of one case in a tick, between its awaits, is one step, and a request
-- is one step but for the claim of its key, whose effect on other requests is stated by itself.
-- Texts of messages, titles and reasons are left out, but for the ids and codes that decide
-- something; the title in the judge's answer is already shortened. A call of the beacon may
-- throw: a step of the session then ends where it is, and a filing is refused. The client of the mint
-- worker, which repeats a post that fails, is one call. A replacement is drawn from the ids that the
-- query returns within the weekly limit of a juror.
--
-- What is not modelled: the other HTTP routes, the enumerations of their payloads, reputations and
-- the learning export, the mint worker and its stub, the judge's client, the presenters, the other
-- requests of the OCP service with its canonical form of terms, the front end and the scripts.
pub mod Base
pub mod Verdict
pub mod Jury
pub mod Session
pub mod Seal
pub mod Defence
pub mod Close
pub mod Shared
pub mod Ballots
pub mod Readiness
pub mod Filing
pub mod Validation
pub mod Messages
pub mod Ocp
pub mod Requests
pub mod Tests
