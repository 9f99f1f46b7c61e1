-- ===== src/Ensemble/Trusted.antt =====
-- The signal that the consensus trusts.
use curator_agent.Prelude.{
  or_raise, Option, none, String, true, some, List, [], ◌∷◌, ◌==◌, ◌≡◌, ◌⊎◌, inl, inr, refl, ap,
  ◌∙◌, arith, All, Bool-cases, Result-cases, Result, ok, raise, Memᴰ, or_raise,
}
use curator_agent.Prelude.Text.{lower}
use curator_agent.Value.{null, bool, int, float, list, dict, Value, Fields, Float, str, overflow}
use curator_agent.Value.Number.{float_leb}
use curator_agent.Intelligence.{Arithmetic, ConversionError, value_error, zero_float}
use curator_agent.Intelligence.Unreadable.{Conversion-cases}
use curator_agent.Enforcing.{is_success}
use curator_agent.Sandbox.Fallback.{get_or_none}
use curator_agent.Ensemble.Voting.{
  Tally, Consensus, is_valid_signal, no_votes, get_or, greater, leading, add_vote, given_confidence,
  confidence_of, output_of, str_of, signal_of, weight_of, vote_for, add_weight, count_vote,
  count_votes, decided, decide, consensus,
}

-- What a signal other than "hold" shows.
pub record IsTrusted (a : Arithmetic) (minimum_agreement : Float) (c : Consensus) : Type 0 where
  pub valid : is_valid_signal c.signal ≡ true
  pub state : c.state ≡ "consensus"
  pub leading : c.leading_signal ≡ some c.signal
  pub weight : Float
  pub total : Float
  pub agreement : c.agreement ≡ a.round (a.div weight total) 6
  pub enough : float_leb minimum_agreement (a.div weight total) ≡ true

IsValidVote : String × Float → Type 0
IsValidVote v = is_valid_signal v.0 ≡ true

greater-IsValidVote :
    (v w : String × Float) → IsValidVote v → IsValidVote w → IsValidVote (greater v w)
unfolding greater IsValidVote
greater-IsValidVote (s, x) (t, y) h k = ground arith

leading-IsValidVote :
    (v : String × Float) (votes : List (String × Float))
    → IsValidVote v
    → All IsValidVote votes
    → IsValidVote (leading v votes)
unfolding leading
leading-IsValidVote v [] h k = h
leading-IsValidVote v (w ∷ votes) h k =
    leading-IsValidVote (greater v w) votes (greater-IsValidVote v w h k.0) k.1

or_raise_error :
    (o : Option String) (e : ConversionError) → or_raise o value_error ≡ raise e → e ≡ value_error
or_raise_error none e h = ground (arith, h)
or_raise_error (some s) e h = absurd (ground (arith, h))

module _ (a : Arithmetic) where
  add_vote-IsValidVote :
      (signal : String) (weight : Float) (votes : List (String × Float))
      → is_valid_signal signal ≡ true
      → All IsValidVote votes
      → All IsValidVote (add_vote a signal weight votes)
  unfolding add_vote IsValidVote
  add_vote-IsValidVote signal weight [] h k = (h, tt)
  add_vote-IsValidVote signal weight ((s, x) ∷ votes) h k = elim (Bool-cases (s == signal)) [
    | inl same ↦ rw same (k.0, k.1)
    | inr other ↦ rw other (k.0, add_vote-IsValidVote signal weight votes h k.1)
  ]

  -- Why an execution ends the consensus: it succeeded, and its signal has no text; or its signal counts,
  -- and its confidence is too large for a float or its stage has no text.
  pub data BreaksOff (item : Fields) : Type 0 where
    no_signal :
        is_success (get_or_none "execution_status" item) ≡ true
        → str_of a (get_or "signal" (str "") (output_of item)) ≡ raise value_error
        → BreaksOff item
    no_weight :
        (s : String)
        → is_success (get_or_none "execution_status" item) ≡ true
        → str_of a (get_or "signal" (str "") (output_of item)) ≡ ok s
        → is_valid_signal (lower s) ≡ true
        → (a.to_float (given_confidence (output_of item)) ≡ overflow)
          ⊎ (str_of a (get_or_none "deployment_stage" item) ≡ raise value_error)
        → BreaksOff item

  -- What the count leaves: a tally of valid votes, or an exception for a reason.
  abbrev Counted : Type 0 → Result ConversionError Tally → Type 0
  Counted Reason result =
      ((t : Tally) × (result ≡ ok t) × All IsValidVote t.votes)
      ⊎ (Reason × ((e : ConversionError) × (result ≡ raise e)))

  str_of-raise : (v : Value) (e : ConversionError) → str_of a v ≡ raise e → e ≡ value_error
  str_of-raise null e h = or_raise_error (a.str_output null) e h
  str_of-raise (bool b) e h = or_raise_error (a.str_output (bool b)) e h
  str_of-raise (int n) e h = or_raise_error (a.str_output (int n)) e h
  str_of-raise (float x) e h = or_raise_error (a.str_output (float x)) e h
  str_of-raise (list xs) e h = or_raise_error (a.str_output (list xs)) e h
  str_of-raise (dict d) e h = or_raise_error (a.str_output (dict d)) e h
  str_of-raise (str s) e h = absurd (ground (arith, h))

  confidence_of-raise :
      (output : Fields) (e : ConversionError)
      → confidence_of a output ≡ raise e
      → a.to_float (given_confidence output) ≡ overflow
  unfolding confidence_of
  confidence_of-raise output e h = elim (Conversion-cases (a.to_float (given_confidence output))) [
    | inl (x, number) ↦ absurd (ground (arith, number, h))
    | inr (inl text) ↦ absurd (ground (arith, text, h))
    | inr (inr large) ↦ large
  ]

  weight_of-raise :
      (item : Fields) (e : ConversionError)
      → weight_of a item ≡ raise e
      → (a.to_float (given_confidence (output_of item)) ≡ overflow)
        ⊎ (str_of a (get_or_none "deployment_stage" item) ≡ raise value_error)
  unfolding weight_of
  weight_of-raise item e h = elim (Result-cases (confidence_of a (output_of item))) [
    | inr (e', wrong) ↦ inl (confidence_of-raise (output_of item) e' wrong)
    | inl (x, read) ↦ elim (Result-cases (str_of a (get_or_none "deployment_stage" item))) [
      | inr (e', wrong) ↦
          inr (wrong ∙ ap raise (str_of-raise (get_or_none "deployment_stage" item) e' wrong))
      | inl (s, stage) ↦ absurd (ground (arith, read, stage, h))
    ]
  ]

  vote_for-Counted :
      (signal : String) (item : Fields) (t : Tally)
      → All IsValidVote t.votes
      → Counted
          ((is_valid_signal signal ≡ true) × ((e : ConversionError) × (weight_of a item ≡ raise e)))
          (vote_for a signal item t)
  unfolding vote_for
  vote_for-Counted signal item t k = elim (Bool-cases (is_valid_signal signal)) [
    | inr other ↦ inl (t, rw other refl, k)
    | inl valid ↦ elim (Result-cases (weight_of a item)) [
      | inr (e, wrong) ↦ inr ((valid, (e, wrong)), (e, rw (valid, wrong) refl))
      | inl (w, read) ↦ inl (
        add_weight a signal w t,
        rw (valid, read) refl,
        unfold add_weight in add_vote-IsValidVote signal w t.votes valid k,
      )
    ]
  ]

  signal_lem :
      (item : Fields) (s : String)
      → str_of a (get_or "signal" (str "") (output_of item)) ≡ ok s
      → signal_of a item ≡ ok (lower s)
  unfolding signal_of
  signal_lem item s h = rw h refl

  no_signal_lem :
      (item : Fields) (e : ConversionError)
      → str_of a (get_or "signal" (str "") (output_of item)) ≡ raise e
      → signal_of a item ≡ raise e
  unfolding signal_of
  no_signal_lem item e h = rw h refl

  count_vote-Counted :
      (item : Fields) (t : Tally)
      → All IsValidVote t.votes
      → Counted (BreaksOff item) (count_vote a item t)
  unfolding count_vote
  count_vote-Counted item t k =
      let given = get_or "signal" (str "") (output_of item) in
      elim (Bool-cases (is_success (get_or_none "execution_status" item))) [
        | inr failed ↦ inl (t, rw failed refl, k)
        | inl done ↦ elim (Result-cases (str_of a given)) [
          | inr (e, wrong) ↦ inr (
            no_signal done (wrong ∙ ap raise (str_of-raise given e wrong)),
            (e, rw (done, no_signal_lem item e wrong) refl),
          )
          | inl (s, read) ↦ elim (vote_for-Counted (lower s) item t k) [
            | inl (t', voted, k') ↦ inl (t', rw (done, signal_lem item s read) voted, k')
            | inr ((valid, (e', wrong)), (e, raised)) ↦ inr (
              no_weight s done read valid (weight_of-raise item e' wrong),
              (e, rw (done, signal_lem item s read) raised),
            )
          ]
        ]
      ]

  -- One of the executions ends the consensus.
  abbrev pub OneBreaksOff : List Fields → Type 0
  OneBreaksOff items = (item : Fields) × Memᴰ item items × BreaksOff item

  count_votes-Counted :
      (items : List Fields) (t : Tally)
      → All IsValidVote t.votes
      → Counted (OneBreaksOff items) (count_votes a items t)
  unfolding count_votes
  count_votes-Counted [] t k = inl (t, refl, k)
  count_votes-Counted (item ∷ items) t k = elim (count_vote-Counted item t k) [
    | inr (why, (e, failed)) ↦ inr ((item, Memᴰ.head refl, why), (e, rw failed refl))
    | inl (t', done, k') ↦ elim (count_votes-Counted items t' k') [
      | inr ((i, m, why), (e, failed)) ↦ inr ((i, Memᴰ.tail m, why), (e, rw (done, failed) refl))
      | inl (t'', done', k'') ↦ inl (t'', rw (done, done') refl, k'')
    ]
  ]

  module _ (minimum_agreement : Float) where
    abbrev pub HoldOrTrusted : Consensus → Type 0
    HoldOrTrusted c = (c.signal ≡ "hold") ⊎ IsTrusted a minimum_agreement c

    decided-HoldOrTrusted :
        (t : Tally) (v : String × Float)
        → IsValidVote v
        → HoldOrTrusted (decided a minimum_agreement t v)
    unfolding decided IsValidVote
    decided-HoldOrTrusted t (s, w) h =
        elim (Bool-cases (float_leb minimum_agreement (a.div w t.total_weight))) [
          | inl enough ↦ inr (record {
            valid = rw enough h;
            state = rw enough refl;
            leading = rw enough refl;
            weight = w;
            total = t.total_weight;
            agreement = refl;
            enough = enough;
          })
          | inr few ↦ inl (rw few refl)
        ]

    decide-HoldOrTrusted :
        (t : Tally) (votes : List (String × Float))
        → All IsValidVote votes
        → HoldOrTrusted (decide a minimum_agreement t votes)
    unfolding decide
    decide-HoldOrTrusted t [] h = inl refl
    decide-HoldOrTrusted t (v ∷ votes) h = elim (Bool-cases (float_leb t.total_weight zero_float)) [
      | inl none_given ↦ rw none_given (inl refl)
      | inr given ↦
          rw given (decided-HoldOrTrusted t (leading v votes) (leading-IsValidVote v votes h.0 h.1))
    ]

    -- There is a consensus, whose signal is "hold", or is one of the three signals, leads, and has a share
    -- of the weight, which rounded is the reported agreement, that reaches the minimum; or an exception
    -- leaves the function, and one of the executions has a reason for it.
    pub consensus-HoldOrTrusted :
        (executions : List Fields)
        → ((c : Consensus) × (consensus a executions minimum_agreement ≡ ok c) × HoldOrTrusted c)
          ⊎ (OneBreaksOff executions
              × ((e : ConversionError) × (consensus a executions minimum_agreement ≡ raise e)))
    unfolding consensus
    consensus-HoldOrTrusted executions = elim (count_votes-Counted executions no_votes tt) [
      | inr (why, (e, failed)) ↦ inr (why, (e, rw failed refl))
      | inl (t, done, k) ↦
          inl (decide a minimum_agreement t t.votes, rw done refl, decide-HoldOrTrusted t t.votes k)
    ]
