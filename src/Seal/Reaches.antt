-- ===== src/Seal/Reaches.antt =====
-- What happens to a seal job over time, in any order: the two halves of a run, results that the
-- worker sends by itself, and jobs that are put back in the queue.
use mathlib.Core.Bool.{false≢true}
use open_cawt.Base.{
  true, false, all, ap, ℕ, ◌+◌, String, Bool, Option, none, some, List, [], ◌∷◌, ◌≡◌, ◌∙◌, refl,
  sym, subst, arith, str_eq, if_elim,
}
use open_cawt.Base.Errors.{Result, ok}
use open_cawt.Session.Types.{CaseDb}
use open_cawt.Seal.Types.{JobStatus, SealRequest, SealResponse, SealJob, VerdictRow, Docket}
use open_cawt.Seal.Jobs.{
  update_job, create_seal_job_if_missing, requeue_seal_job_for_redrive, mark_seal_job_failed,
  is_redrivable, requeued, requeue_found, set_case_seal_state, create_seal_job, claimed,
}
use open_cawt.Seal.Worker.{
  SealEnv, Mode, Answer, response, error, Started, sent, start_seal_job, finish_seal_job,
  apply_seal_result,
}
use open_cawt.Seal.Routes.{Settled, seal_result, job_of}
use open_cawt.Seal.Claims.{
  is_claimable, sent-IsMinting, docket, Starts, absent, over, busy, sends, start-Starts,
}
use open_cawt.Seal.Results.{
  Settles, refused, repeats, applies, seal_result-Settles, with_result, apply-job,
}

pub data Act : Type 0 where
  create : String → SealRequest → String → Act
  start : String → Act
  finish : Mode → String → SealRequest → Answer → Act
  result : SealResponse → Act
  requeue : String → Act

abbrev pub count_started : Docket × Result Started → Docket × ℕ
count_started (d, ok (sent request)) = (d, 1)
count_started (d, _) = (d, 0)

-- The docket after it, and the number of runs that took the job to the worker. The client of the
-- worker may post the request of one run several times.
unfoldable pub act : SealEnv → ℕ → Act → Docket → Docket × ℕ
unfolding create_seal_job_if_missing start_seal_job finish_seal_job seal_result
    requeue_seal_job_for_redrive
act env now (create case_id request hash) d =
    ((create_seal_job_if_missing case_id request hash now d).0, 0)
act env now (start job_id) d = count_started (start_seal_job job_id now d)
act env now (finish mode job_id request answer) d =
    ((finish_seal_job env mode job_id request answer now d).0, 0)
act env now (result body) d = ((seal_result env body now d).0, 0)
act env now (requeue job_id) d = ((requeue_seal_job_for_redrive job_id d).0, 0)

-- Each act with its time.
unfoldable pub acts : SealEnv → List (ℕ × Act) → Docket → Docket × ℕ
unfolding act
acts env [] d = (d, 0)
acts env ((now, a) ∷ rest) d =
    let here = act env now a d in let there = acts env rest here.0 in (there.0, here.1 + there.1)

-- The same job later, after so many more attempts.
pub record Succeeds (count : ℕ) (j j' : SealJob) : Type 0 where
  pub same_id : j'.job_id ≡ j.job_id
  pub same_case : j'.case_id ≡ j.case_id
  pub same_request : j'.request ≡ j.request
  pub same_payload : j'.payload_hash ≡ j.payload_hash
  pub attempts : j'.attempts ≡ j.attempts + count

pub data Later (count : ℕ) (j : SealJob) (o : Option SealJob) : Type 0 where
  later : (j' : SealJob) → o ≡ some j' → Succeeds count j j' → Later count j o

unmoved :
    (j j' : SealJob)
    → j'.job_id ≡ j.job_id
    → j'.case_id ≡ j.case_id
    → j'.request ≡ j.request
    → j'.payload_hash ≡ j.payload_hash
    → j'.attempts ≡ j.attempts
    → Succeeds 0 j j'
unmoved j j' a b c e f = record {
  same_id = a;
  same_case = b;
  same_request = c;
  same_payload = e;
  attempts = omega arith;
}

stays : (j : SealJob) → Later 0 j (some j)
stays j = later j refl (unmoved j j refl refl refl refl refl)

then_later :
    {a b : ℕ} {j j' : SealJob} {o : Option SealJob}
    → Succeeds a j j'
    → Later b j' o
    → Later (a + b) j o
then_later s (later j'' e t) = later j'' e (record {
  same_id = t.same_id ∙ s.same_id;
  same_case = t.same_case ∙ s.same_case;
  same_request = t.same_request ∙ s.same_request;
  same_payload = t.same_payload ∙ s.same_payload;
  attempts = omega (arith, s.attempts, t.attempts);
})

updated :
    (job_id : String) (f : SealJob → SealJob) (j : SealJob)
    → Succeeds 0 j (f j)
    → Later 0 j (update_job job_id f (some j))
updated job_id f j s =
    if_elim (Later 0 j) (str_eq j.job_id job_id) (λ _. later (f j) refl s) (λ _. stays j)

with_result-Succeeds :
    (body : SealResponse) (now : ℕ) (j : SealJob) → Succeeds 0 j (with_result body now j)
with_result-Succeeds (SealResponse.minted m) now j = unmoved j _ refl refl refl refl refl
with_result-Succeeds (SealResponse.failed f) now j = unmoved j _ refl refl refl refl refl

started :
    (job_id : String) (now : ℕ) (db : CaseDb) (v : Option VerdictRow) (j : SealJob)
    (r : Docket × Result Started)
    → Starts job_id now db v (some j) r
    → Later (count_started r).1 j (count_started r).0.job
started job_id now db v j r (absent h) = stays j
started job_id now db v j r (over h m) = stays j
started job_id now db v j r (busy h m) = stays j
started job_id now db v j r (sends h m) = later (claimed now j) refl (record {
  same_id = refl;
  same_case = refl;
  same_request = refl;
  same_payload = refl;
  attempts = refl;
})

module _ (env : SealEnv) (now : ℕ) (db : CaseDb) (v : Option VerdictRow) (j : SealJob) where
  applied-Later :
      (body : SealResponse) → Later 0 j (apply_seal_result body none now (docket db (some j) v)).job
  applied-Later body =
      rw (apply-job body now (docket db (some j) v))
        (updated (job_of body) (with_result body now) j (with_result-Succeeds body now j))

  settled :
      (body : SealResponse) (r : Docket × Result Settled)
      → Settles env body now db v (some j) r
      → Later 0 j r.0.job
  settled body r refused = stays j
  settled body r (repeats f p h) = stays j
  settled body r (applies f p s) = applied-Later body

  act-Later :
      (a : Act)
      → Later
          (act env now a (docket db (some j) v)).1
          j
          (act env now a (docket db (some j) v)).0.job
  unfolding act create_seal_job_if_missing create_seal_job set_case_seal_state finish_seal_job
      mark_seal_job_failed requeue_seal_job_for_redrive apply_seal_result
  act-Later (create case_id request hash) = stays j
  act-Later (start job_id) = started job_id now db v j _ (start-Starts job_id now db v (some j))
  act-Later (finish mode job_id request (response r)) = applied-Later r
  act-Later (finish mode job_id request (error message)) =
      if_elim (Later 0 j) (str_eq j.job_id job_id)
        (λ _. later _ refl (unmoved j _ refl refl refl refl refl)) (λ _. stays j)
  act-Later (result body) = settled body _ (seal_result-Settles env body now db v (some j))
  act-Later (requeue job_id) =
      if_elim (λ (o : Option SealJob). Later 0 j (requeue_found o (docket db (some j) v)).0.job)
        (str_eq j.job_id job_id)
        (λ _.
          if_elim (λ (r : Docket × Bool). Later 0 j r.0.job) (is_redrivable j.status)
            (λ _. later (requeued j) refl (unmoved j _ refl refl refl refl refl)) (λ _. stays j))
        (λ _. stays j)

-- Whatever happens to a case, in any order, its seal job stays the same job: the request to the
-- worker and its hash never change, no second job takes its place, and the attempts on record
-- are those before and one for every run that took it to the worker.
pub acts-Later :
    (env : SealEnv) (l : List (ℕ × Act)) (d : Docket) (j : SealJob)
    → d.job ≡ some j
    → Later (acts env l d).1 j (acts env l d).0.job
unfolding acts
acts-Later env [] d j e = later j e (unmoved j j refl refl refl refl refl)
acts-Later env ((now, a) ∷ rest) d j e =
    let here =
      subst
        (λ o.
          Later (act env now a (docket d.db o d.verdict)).1 j
            (act env now a (docket d.db o d.verdict)).0.job)
        (sym e) (act-Later env now d.db d.verdict j a) in
    elim here [ later j' e' s ↦ then_later s (acts-Later env rest (act env now a d).0 j' e') ]

-- Acts that neither end a run nor put a job back: creations and starts.
abbrev pub is_creation_or_start : Act → Bool
is_creation_or_start (create case_id request hash) = true
is_creation_or_start (start job_id) = true
is_creation_or_start _ = false

minting-started :
    (job_id : String) (now : ℕ) (db : CaseDb) (v : Option VerdictRow) (j : SealJob)
    (r : Docket × Result Started)
    → j.status ≡ JobStatus.minting
    → Starts job_id now db v (some j) r
    → (r.0 ≡ docket db (some j) v) × (count_started r ≡ (docket db (some j) v, 0))
minting-started job_id now db v j r m (absent h) = (refl, refl)
minting-started job_id now db v j r m (over h k) = absurd (not_both j.status m k)
  where
    not_both : (s : JobStatus) → s ≡ JobStatus.minting → s ≡ JobStatus.minted → ⊥
    not_both s a b = cc
minting-started job_id now db v j r m (busy h k) = (refl, refl)
minting-started job_id now db v j r m (sends h k) =
    absurd (false≢true (sym (ap is_claimable m) ∙ k))

minting-act :
    (env : SealEnv) (now : ℕ) (a : Act) (db : CaseDb) (v : Option VerdictRow) (j : SealJob)
    → j.status ≡ JobStatus.minting
    → is_creation_or_start a ≡ true
    → act env now a (docket db (some j) v) ≡ (docket db (some j) v, 0)
unfolding act create_seal_job_if_missing create_seal_job set_case_seal_state
minting-act env now (create case_id request hash) db v j m q = refl
minting-act env now (start job_id) db v j m q =
    (minting-started job_id now db v j _ m (start-Starts job_id now db v (some j))).1
minting-act env now (finish mode job_id request answer) db v j m q = cc
minting-act env now (result body) db v j m q = cc
minting-act env now (requeue job_id) db v j m q = cc

minting-acts :
    (env : SealEnv) (l : List (ℕ × Act)) (db : CaseDb) (v : Option VerdictRow) (j : SealJob)
    → j.status ≡ JobStatus.minting
    → all (λ (a : ℕ × Act). is_creation_or_start a.1) l ≡ true
    → acts env l (docket db (some j) v) ≡ (docket db (some j) v, 0)
unfolding acts
minting-acts env [] db v j m q = refl
minting-acts env ((now, a) ∷ l) db v j m q =
    rw (minting-act env now a db v j m (ground arith))
      (rw (minting-acts env l db v j m (ground arith)) refl)

-- After a run has taken a job to the worker, and before the run ends, a result arrives or the job is put
-- back, whatever creations and starts there are, for the queue or for a retry: no run takes the job to
-- the worker again, and nothing changes.
pub start-excludes :
    (env : SealEnv) (job_id : String) (now : ℕ) (d d1 : Docket) (request : SealRequest)
    (between : List (ℕ × Act))
    → start_seal_job job_id now d ≡ (d1, ok (sent request))
    → all (λ (a : ℕ × Act). is_creation_or_start a.1) between ≡ true
    → acts env between d1 ≡ (d1, 0)
start-excludes env job_id now d d1 request between h q =
    let i = sent-IsMinting job_id now d d1 request h in
    subst
      (λ (o : Option SealJob).
        acts env between (docket d1.db o d1.verdict) ≡ (docket d1.db o d1.verdict, 0))
      (sym i.on_file) (minting-acts env between d1.db d1.verdict i.job i.minting q)
