-- ===== src/Ocp/Runs.antt =====
-- The service over time: requests arrive, and those that wait go on, in any order.
use open_cawt.Base.{ℕ, zero, suc, Option, none, some, List, [], ◌∷◌, ◌++◌, All, All-mono}
use open_cawt.Ocp.{OcpDb}
use open_cawt.Ocp.Handlers.{
  OcpEnv, OcpRequest, Waiting, OcpOutcome, begin_request, resume_request, waits,
}
use open_cawt.Ocp.Mints.{MintAnswer}
use open_cawt.Ocp.Sound.{IsSound}
use open_cawt.Ocp.Sound.Segments.{Knows, KnowsAfter, Knows-Grows, Keeps}
use open_cawt.Ocp.Sound.Requests.{begin_request-Keeps, resume_request-Keeps}

-- The tables and the requests that wait.
pub record Service : Type 0 where
  pub db : OcpDb
  pub waiting : List Waiting

-- A request arrives, or the n-th that waits goes on, with what the worker answered.
pub data ServiceEvent : Type 0 where
  arrives : ℕ → OcpRequest → ServiceEvent
  goes_on : ℕ → MintAnswer → ℕ → ServiceEvent

abbrev still_waiting : OcpOutcome → List Waiting
still_waiting (waits w) = w ∷ []
still_waiting _ = []

abbrev after_piece : List Waiting → OcpDb × OcpOutcome → Service
after_piece others (db, outcome) = record { db = db; waiting = others ++ still_waiting outcome }

abbrev also : Waiting → Option (Waiting × List Waiting) → Option (Waiting × List Waiting)
also x none = none
also x (some (w, rest)) = some (w, x ∷ rest)

abbrev pick : ℕ → List Waiting → Option (Waiting × List Waiting)
pick n [] = none
pick zero (x ∷ l) = some (x, l)
pick (suc n) (x ∷ l) = also x (pick n l)

abbrev go_on : OcpEnv → ℕ → MintAnswer → Option (Waiting × List Waiting) → Service → Service
unfolding resume_request
go_on env now answer none s = s
go_on env now answer (some (w, rest)) s = after_piece rest (resume_request env now answer w s.db)

unfoldable pub happens : OcpEnv → ServiceEvent → Service → Service
unfolding begin_request resume_request
happens env (arrives now request) s = after_piece s.waiting (begin_request env now request s.db)
happens env (goes_on now answer n) s = go_on env now answer (pick n s.waiting) s

unfoldable pub run : OcpEnv → List ServiceEvent → Service → Service
unfolding happens
run env [] s = s
run env (e ∷ rest) s = run env rest (happens env e s)

abbrev pub no_agreements : Service
no_agreements = record {
  db = record { agents = []; agreements = []; signatures = []; receipts = [] };
  waiting = [];
}

-- The tables are sound, and what each request has read still holds.
record IsCoherent (env : OcpEnv) (s : Service) : Type 0 where
  pub sound : IsSound env s.db
  pub knows : All (Knows s.db) s.waiting

All-append : (P : Waiting → Type 0) (l m : List Waiting) → All P l → All P m → All P (l ++ m)
All-append P [] m a b = b
All-append P (x ∷ l) m (p, a) b = (p, All-append P l m a b)

Knows-still_waiting :
    (db : OcpDb) (o : OcpOutcome) → KnowsAfter db o → All (Knows db) (still_waiting o)
Knows-still_waiting db (waits w) k = (k, tt)
Knows-still_waiting db (OcpOutcome.replies r) k = tt
Knows-still_waiting db (OcpOutcome.fails e) k = tt

-- The one that is picked, and the others.
IsPicked : (P : Waiting → Type 0) → Option (Waiting × List Waiting) → Type 0
IsPicked P none = Unit
IsPicked P (some (w, rest)) = P w × All P rest

pick-All : (P : Waiting → Type 0) (n : ℕ) (l : List Waiting) → All P l → IsPicked P (pick n l)
unfolding IsPicked
pick-All P zero [] a = tt
pick-All P (suc n) [] a = tt
pick-All P zero (x ∷ l) (p, a) = (p, a)
pick-All P (suc n) (x ∷ l) (p, a) = add (pick n l) (pick-All P n l a)
  where
    add : (o : Option (Waiting × List Waiting)) → IsPicked P o → IsPicked P (also x o)
    add none q = tt
    add (some (w, rest)) (q, r) = (q, (p, r))

module _ {env : OcpEnv} where
  after_piece-IsCoherent :
      (others : List Waiting) (db : OcpDb) (r : OcpDb × OcpOutcome)
      → All (Knows db) others
      → Keeps env db r
      → IsCoherent env (after_piece others r)
  after_piece-IsCoherent others db (db', o) a k = record {
    sound = k.sound;
    knows =
        All-append (Knows db') others (still_waiting o) (All-mono (Knows-Grows k.grows) others a)
          (Knows-still_waiting db' o k.knows);
  }

  happens-IsCoherent :
      (e : ServiceEvent) (s : Service) → IsCoherent env s → IsCoherent env (happens env e s)
  unfolding happens IsPicked
  happens-IsCoherent (arrives now request) s c =
      after_piece-IsCoherent s.waiting s.db _ c.knows (begin_request-Keeps now request s.db c.sound)
  happens-IsCoherent (goes_on now answer n) s c =
      picked (pick n s.waiting) (pick-All (Knows s.db) n s.waiting c.knows)
    where
      picked :
          (o : Option (Waiting × List Waiting))
          → IsPicked (Knows s.db) o
          → IsCoherent env (go_on env now answer o s)
      picked none q = c
      picked (some (w, rest)) (q, a) =
          after_piece-IsCoherent rest s.db _ a (resume_request-Keeps now answer w s.db c.sound q)

  run-IsCoherent :
      (events : List ServiceEvent) (s : Service)
      → IsCoherent env s
      → IsCoherent env (run env events s)
  unfolding run
  run-IsCoherent [] s c = c
  run-IsCoherent (e ∷ rest) s c = run-IsCoherent rest (happens env e s) (happens-IsCoherent e s c)

-- From empty tables, whatever requests arrive and in whatever order their pieces run: each receipt
-- has the code and the hash of an agreement on file of which a signature of each party is stored
-- that verifies, and each agreement that is sealed has a receipt.
pub run-IsSound :
    (env : OcpEnv) (events : List ServiceEvent) → IsSound env (run env events no_agreements).db
unfolding run
run-IsSound env events =
    (run-IsCoherent events no_agreements
      (record { sound = record { signed = λ i c h. cc; receipted = λ i h. cc }; knows = tt })).sound
