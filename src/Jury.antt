-- ===== src/Jury.antt =====
-- server/services/jury.ts: the panel drawn from the pool of eligible jurors by the drand beacon, and
-- the replacements drawn from the proof of that draw.
pub mod Pool
pub mod Panel
pub mod Replacement
use Prim.Native.String
use open_cawt.Base.{
  ℕ, String, Bool, Option, none, some, List, [], ◌∷◌, ◌++◌, map, ltb, if◌then◌else◌, length, take,
  str_eq, str_le, or_else,
}
use open_cawt.Base.Errors.{Result, ok, err, bad_request}
use open_cawt.Base.Sets.{has, unique_sorted}
use open_cawt.Base.Sorting.{sort}

-- What the platform provides: SHA-256 in hexadecimal, `JSON.stringify` of a text, and
-- `a.localeCompare(b) <= 0`.
pub record Platform : Type 0 where
  pub sha256_hex : String → String
  pub json_string : String → String
  pub locale_le : String → String → Bool

pub record ChainInfo : Type 0 where
  pub public_key : Option String
  pub period_seconds : Option ℕ
  pub genesis_time : Option ℕ
  pub hash : Option String

pub record DrandRoundData : Type 0 where
  pub chain_info : ChainInfo
  pub round : ℕ
  pub randomness : String

pub record JurySelectionInput : Type 0 where
  pub case_id : String
  pub eligible_juror_ids : List String
  pub drand : DrandRoundData
  pub jury_size : ℕ

pub record Candidate : Type 0 where
  pub agent_id : String
  pub score_hash : String

pub record JurySelectionProof : Type 0 where
  pub chain_info : ChainInfo
  pub round : ℕ
  pub randomness : String
  pub pool_snapshot_hash : String
  pub seed : String
  pub domain : String
  pub candidate_scores : List Candidate
  pub selected_jurors : List String
  pub replacement_jurors : Option (List String)

pub record JurySelectionResult : Type 0 where
  pub selected_jurors : List String
  pub scored_candidates : List Candidate
  pub pool_snapshot_hash : String
  pub seed : String
  pub proof : JurySelectionProof

abbrev pub jury_domain : String
jury_domain = "OpenCawtJuryV1"

-- `${a}|${b}`
piped : String → String → String
piped a b = String.◌++◌ a (String.◌++◌ "|" b)

-- `canonicalJson` of an array of texts.
joined : (String → String) → List String → String
joined json [] = ""
joined json (x ∷ []) = json x
joined json (x ∷ y ∷ rest) = String.◌++◌ (json x) (String.◌++◌ "," (joined json (y ∷ rest)))

canonical_json_array : (String → String) → List String → String
unfolding joined
canonical_json_array json xs = String.◌++◌ "[" (String.◌++◌ (joined json xs) "]")

module _ (p : Platform) where
  -- The comparator of the sort: by score, then by id.
  pub ahead : Candidate → Candidate → Bool
  ahead a b =
      if str_eq a.score_hash b.score_hash
      then p.locale_le a.agent_id b.agent_id
      else str_le a.score_hash b.score_hash

  pub score : String → String → Candidate
  unfolding piped
  score seed agent_id = record {
    agent_id = agent_id;
    score_hash = p.sha256_hex (piped seed agent_id);
  }

  pub seed_of : JurySelectionInput → String
  unfolding piped
  seed_of input = p.sha256_hex (piped input.drand.randomness (piped input.case_id jury_domain))

  -- The selection from the distinct eligible ids in order.
  pub select_from : JurySelectionInput → List String → JurySelectionResult
  unfolding ahead score seed_of canonical_json_array
  select_from input unique =
      let pool_snapshot_hash = p.sha256_hex (canonical_json_array p.json_string unique) in
      let seed = seed_of input in
      let scored = sort ahead (map (score seed) unique) in
      let selected = map (λ item. item.agent_id) (take input.jury_size scored) in
      record {
        selected_jurors = selected;
        scored_candidates = scored;
        pool_snapshot_hash = pool_snapshot_hash;
        seed = seed;
        proof = record {
          chain_info = input.drand.chain_info;
          round = input.drand.round;
          randomness = input.drand.randomness;
          pool_snapshot_hash = pool_snapshot_hash;
          seed = seed;
          domain = jury_domain;
          candidate_scores = scored;
          selected_jurors = selected;
          replacement_jurors = none;
        };
      }

  unfoldable pub select_jury_deterministically : JurySelectionInput → Result JurySelectionResult
  unfolding select_from sort unique_sorted
  select_jury_deterministically input =
      let unique = unique_sorted input.eligible_juror_ids in
      if ltb (length unique) input.jury_size
      then err (bad_request "INSUFFICIENT_JURORS")
      else ok (select_from input unique)

-- The loop over the scores; the set of excluded ids is a list.
unfoldable pub pick_first : List Candidate → List String → Option Candidate
pick_first [] excluded = none
pick_first (candidate ∷ rest) excluded =
    if has excluded candidate.agent_id then pick_first rest excluded else some candidate

unfoldable pub pick_replacement_from_proof : JurySelectionProof → List String → Option Candidate
unfolding pick_first
pick_replacement_from_proof proof excluded = pick_first proof.candidate_scores excluded

pub with_replacement_in_proof : JurySelectionProof → String → JurySelectionProof
with_replacement_in_proof proof replacement_juror_id =
    let replacements = or_else proof.replacement_jurors [] in
    record proof {
      replacement_jurors = some (
          if has replacements replacement_juror_id
          then replacements
          else replacements ++ replacement_juror_id ∷ []);
    }
