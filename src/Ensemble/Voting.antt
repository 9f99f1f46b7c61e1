-- ===== src/Ensemble/Voting.antt =====
-- `_consensus` of app/shadow_ensemble.py. The arithmetic of floats is a parameter.
use curator_agent.Prelude.{
  or_raise, Result, ok, raise, ◌>>=◌, ℕ, suc, String, Bool, Option, none, some, List, [], ◌∷◌, ◌==◌,
  ◌||◌, map, if◌then◌else◌,
}
use curator_agent.Prelude.Sorting.{str_leb, sort_by}
use curator_agent.Prelude.Text.{lower}
use curator_agent.Value.{converted, not_a_number, overflow, Value, Fields, Float, str, float}
use curator_agent.Value.Dict.{get}
use curator_agent.Value.Number.{float_leb, float_ltb, float_eqb}
use curator_agent.Sandbox.Fallback.{get_or_none}
use curator_agent.Enforcing.{is_success}
use curator_agent.Intelligence.{
  ConversionError, value_error, overflow_error, Arithmetic, zero_float, one_float, literal, clamp,
}
use curator_agent.Aware.{dict_or_empty}

-- `signal in VALID_SIGNALS`
abbrev pub is_valid_signal : String → Bool
is_valid_signal s = s == "buy" || (s == "hold" || s == "sell")

abbrev pub half : Float
half = literal 1 1

-- `STAGE_WEIGHTS.get(stage, 0.5)`: the doubles of 1.0, 0.8 and 0.6
unfoldable pub stage_weight : String → Float
stage_weight stage =
    if stage == "champion"
    then one_float
    else if stage == "challenger"
    then literal 3602879701896397 52
    else if stage == "shadow"
    then literal 5404319552844595 53
    else half

-- `votes`, `total_weight` and `successful`
pub record Tally : Type 0 where
  pub votes : List (String × Float)
  pub total_weight : Float
  pub successful : ℕ

abbrev pub no_votes : Tally
no_votes = record { votes = []; total_weight = zero_float; successful = 0 }

-- `output.get(k, default)`
abbrev pub get_or : String → Value → Fields → Value
get_or k default d = elim (get k d) [ none ↦ default | some v ↦ v ]

-- The greater of two pairs, by the weight and then by the signal.
unfoldable pub greater : String × Float → String × Float → String × Float
greater (s, x) (t, y) =
    if float_eqb x y
    then (if str_leb t s then (s, x) else (t, y))
    else if float_ltb x y
    then (t, y)
    else (s, x)

-- `max(votes.items(), ...)`, of the votes after the first one
unfoldable pub leading : String × Float → List (String × Float) → String × Float
leading best [] = best
leading best (vote ∷ votes) = leading (greater best vote) votes

pub record Consensus : Type 0 where
  pub signal : String
  pub leading_signal : Option String
  pub agreement : Float
  pub state : String
  pub minimum_agreement : Option Float
  pub vote_weights : List (String × Float)
  pub successful_votes : ℕ

-- `confidence`
abbrev pub given_confidence : Fields → Value
given_confidence output =
    get_or "calibrated_confidence" (get_or "confidence" (float half) output) output

-- `output`
abbrev pub output_of : Fields → Fields
output_of item = dict_or_empty (get_or_none "output" item)

module _ (a : Arithmetic) where
  -- `votes[signal] += weight`
  unfoldable pub add_vote : String → Float → List (String × Float) → List (String × Float)
  add_vote signal weight [] = (signal, a.add zero_float weight) ∷ []
  add_vote signal weight ((s, x) ∷ votes) =
      let rest = add_vote signal weight votes in
      if s == signal then (s, a.add x weight) ∷ votes else (s, x) ∷ rest

  -- `confidence_value`
  unfoldable pub confidence_of : Fields → Result ConversionError Float
  confidence_of output = elim (a.to_float (given_confidence output)) [
    | not_a_number ↦ ok half
    | overflow ↦ raise overflow_error
    | converted x ↦ ok (clamp x)
  ]

  abbrev pub str_of : Value → Result ConversionError String
  str_of (str s) = ok s
  str_of v = or_raise (a.str_output v) value_error

  -- `signal`
  unfoldable pub signal_of : Fields → Result ConversionError String
  signal_of item = do s ← str_of (get_or "signal" (str "") (output_of item)); ok (lower s)

  -- `weight`
  unfoldable pub weight_of : Fields → Result ConversionError Float
  unfolding confidence_of
  weight_of item = do
    confidence ← confidence_of (output_of item)
    stage ← str_of (get_or_none "deployment_stage" item)
    ok (a.mul (stage_weight stage) confidence)

  unfoldable pub add_weight : String → Float → Tally → Tally
  unfolding add_vote
  add_weight signal weight t = record {
    votes = add_vote signal weight t.votes;
    total_weight = a.add t.total_weight weight;
    successful = suc t.successful;
  }

  -- The part of the loop after the signal.
  unfoldable pub vote_for : String → Fields → Tally → Result ConversionError Tally
  unfolding weight_of add_weight
  vote_for signal item t =
      if is_valid_signal signal
      then (do weight ← weight_of item; ok (add_weight signal weight t))
      else ok t

  -- One execution of the loop.
  unfoldable pub count_vote : Fields → Tally → Result ConversionError Tally
  unfolding signal_of vote_for
  count_vote item t =
      if is_success (get_or_none "execution_status" item)
      then (do signal ← signal_of item; vote_for signal item t)
      else ok t

  unfoldable pub count_votes : List Fields → Tally → Result ConversionError Tally
  unfolding count_vote
  count_votes [] t = ok t
  count_votes (item ∷ items) t = do t' ← count_vote item t; count_votes items t'

  abbrev no_valid_votes : Tally → Consensus
  no_valid_votes t = record {
    signal = "hold";
    leading_signal = none;
    agreement = zero_float;
    state = "no_valid_votes";
    minimum_agreement = none;
    vote_weights = t.votes;
    successful_votes = t.successful;
  }

  -- The outcome for the winning pair.
  unfoldable pub decided : Float → Tally → String × Float → Consensus
  decided minimum_agreement t (signal, weight) =
      let agreement = a.div weight t.total_weight in
      let accepted = float_leb minimum_agreement agreement in
      record {
        signal = if accepted then signal else "hold";
        leading_signal = some signal;
        agreement = a.round agreement 6;
        state = if accepted then "consensus" else "insufficient_agreement";
        minimum_agreement = some minimum_agreement;
        vote_weights = map (λ v. (v.0, a.round v.1 6)) (sort_by (λ v w. str_leb v.0 w.0) t.votes);
        successful_votes = t.successful;
      }

  unfoldable pub decide : Float → Tally → List (String × Float) → Consensus
  unfolding decided leading
  decide minimum_agreement t [] = no_valid_votes t
  decide minimum_agreement t (vote ∷ votes) =
      if float_leb t.total_weight zero_float
      then no_valid_votes t
      else decided minimum_agreement t (leading vote votes)

  unfoldable pub consensus : List Fields → Float → Result ConversionError Consensus
  unfolding count_votes decide
  consensus executions minimum_agreement = do
    t ← count_votes executions no_votes
    ok (decide minimum_agreement t t.votes)
