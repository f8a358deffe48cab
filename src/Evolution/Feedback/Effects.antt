-- ===== src/Evolution/Feedback/Effects.antt =====
-- What a decision on a suggestion does, to the controller and to the memory store
-- (evolution/feedback/feedback.go).
use vcos.Base.{
  ℕ, suc, ◌≡◌, refl, ap, true, false, List, [], ◌∷◌, ◌++◌, Option, none, some, if◌then◌else◌,
}
use vcos.Base.Text.{Text, runes, ◌==◌, is_empty, trim_space, decimal}
use vcos.Base.Dict.{lookup, lookup-remove}
use vcos.Memory.{Entry}
use vcos.Evolution.Feedback.{
  Decision, accept, reject, adjust, other, Suggestion, DecisionRecord, Controller, log, decide,
  apply_from, learned_entry,
}

-- An entry is the one for the pattern at place i of a suggestion, with this title and status.
abbrev pub IsEntry : ℕ → Suggestion → ℕ → Text → Text → Entry → Type 0
IsEntry now sug i title status e =
    (e.id ≡ runes "feedback-" ++ (sug.id ++ (runes "-" ++ decimal i)))
    × (e.title ≡ title)
    × (lookup (runes "status") e.metadata ≡ some status)
    × (e.type ≡ runes "long_term")
    × (e.domain ≡ runes "code")
    × (e.session_id ≡ sug.session_id)
    × (e.updated_at ≡ now)

-- The entries that a decision leaves of the patterns of a suggestion, from place i on: one for each,
-- accepted or rejected with the pattern as title, or adjusted with the correction as title, if there
-- is one; none for any other decision.
abbrev pub Written : ℕ → Suggestion → Text → Decision → ℕ → List Text → List Entry → Type 0
Written now sug text (other d) i ps es = es ≡ []
Written now sug text d i [] es = es ≡ []
Written now sug text d i (p ∷ ps) [] = true ≡ false
Written now sug text accept i (p ∷ ps) (e ∷ es) =
    IsEntry now sug i p (runes "accepted") e × Written now sug text accept (suc i) ps es
Written now sug text reject i (p ∷ ps) (e ∷ es) =
    IsEntry now sug i p (runes "rejected") e × Written now sug text reject (suc i) ps es
Written now sug text adjust i (p ∷ ps) (e ∷ es) =
    ((trim_space text ≡ [] → IsEntry now sug i p (runes "adjusted") e)
      × (is_empty (trim_space text) ≡ false
          → IsEntry now sug i (trim_space text) (runes "adjusted") e))
    × (lookup (runes "original") e.metadata ≡ some p)
    × Written now sug text adjust (suc i) ps es

-- The store after the entries were upserted, the first one first.
abbrev pub upserted : {S : Type 0} → (Entry → S → S) → List Entry → S → S
upserted upsert [] s = s
upserted upsert (e ∷ es) s = upserted upsert es (upsert e s)

module _ {S : Type 0} (upsert : Entry → S → S) where
  -- The loop writes what the decision says.
  apply_from-Written :
      (at now : ℕ) (id text : Text) (sug : Suggestion) (d : Decision) (i : ℕ) (ps : List Text)
      (s : S)
      → let rec : DecisionRecord = record {
        suggestion_id = id;
        decision = d;
        adjusted_text = text;
        timestamp = at;
      } in
        (es : List Entry) × Written now sug text d i ps es
        × (apply_from upsert now sug rec i ps s ≡ upserted upsert es s)
  unfolding apply_from learned_entry lookup ◌==◌
  apply_from-Written at now id text sug accept i [] s = ([], refl, refl)
  apply_from-Written at now id text sug reject i [] s = ([], refl, refl)
  apply_from-Written at now id text sug adjust i [] s = ([], refl, refl)
  apply_from-Written at now id text sug (other d) i [] s = ([], refl, refl)
  apply_from-Written at now id text sug (other d) i (p ∷ ps) s =
      apply_from-Written at now id text sug (other d) (suc i) ps s
  apply_from-Written at now id text sug accept i (p ∷ ps) s =
      let (es, written, same) = apply_from-Written at now id text sug accept (suc i) ps _ in
      (_ ∷ es, ((refl, refl, refl, refl, refl, refl, refl), written), same)
  apply_from-Written at now id text sug reject i (p ∷ ps) s =
      let (es, written, same) = apply_from-Written at now id text sug reject (suc i) ps _ in
      (_ ∷ es, ((refl, refl, refl, refl, refl, refl, refl), written), same)
  apply_from-Written at now id text sug adjust i (p ∷ ps) s =
      let (es, written, same) = apply_from-Written at now id text sug adjust (suc i) ps _ in
      (
        _ ∷ es,
        (
          (
            λ blank. rw blank (refl, refl, refl, refl, refl, refl, refl),
            λ filled. rw (filled, if◌then◌else◌) (refl, refl, refl, refl, refl, refl, refl),
          ),
          refl,
          written,
        ),
        same,
      )

-- Decide without interleaving: of a pending suggestion it returns a record, logs it and makes the
-- suggestion pending no more, while every other suggestion stays as it was; where there is a store,
-- it upserts one entry for each pattern, in order, with the status and the title that belong to the
-- decision, and none for a decision that is not one of the three. Of any other identifier it returns
-- an error and changes nothing.
pub decide_lem :
    {S : Type 0} (upsert : Entry → S → S) (now later : ℕ) (id : Text) (decision : Decision)
    (text : Text) (c : Controller)
    → let rec : DecisionRecord = record {
      suggestion_id = id;
      decision = decision;
      adjusted_text = text;
      timestamp = now;
    } in
      ((s : Suggestion)
        → lookup id c.pending ≡ some s
        → ((store : Option S)
            → let r = decide upsert now later id decision text c store in
              (r.0 ≡ some rec)
              × (r.1.history ≡ c.history ++ rec ∷ [])
              × ((key : Text)
                  → lookup key r.1.pending ≡ (if id == key then none else lookup key c.pending)))
          × ((m : S)
              → (es : List Entry) × Written later s text decision 0 s.learnings es
                × ((decide upsert now later id decision text c (some m)).2
                    ≡ some (upserted upsert es m)))
          × ((decide upsert now later id decision text c none).2 ≡ none))
      × (lookup id c.pending ≡ none
          → (store : Option S)
          → decide upsert now later id decision text c store ≡ (none, c, store))
unfolding decide log
decide_lem upsert now later id decision text c = (
  λ s e. (
    λ store. rw e (refl, refl, λ key. lookup-remove id key c.pending),
    λ m.
        let (es, written, same) =
          apply_from-Written upsert now later id text s decision 0 s.learnings m in
        rw e (es, written, ap some same),
    rw e refl,
  ),
  λ e store. rw e refl,
)
