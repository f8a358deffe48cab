-- ===== src/Kernel/Eventbus.antt =====
-- kernel/eventbus/envelope.go: envelopes and the filters of the subscribers. The children model
-- topic.go (`Topic`) and bus.go (`Bus`, with what is proved of it below `Bus`).
pub mod Topic
pub mod Bus
pub mod Matching
mod Examples
use vcos.Base.{ℕ, Bool, true, false, not, ◌&&◌, ◌||◌, List, [], ◌∷◌, if◌then◌else◌}
use vcos.Base.Text.{Text, ◌==◌}
use Topic.{Payload}

-- `other` is a string that is none of the constants.
pub data Source : Type 0 where
  user session kernel external : Source
  other : Text → Source

abbrev pub source_eq : Source → Source → Bool
source_eq user user = true
source_eq session session = true
source_eq kernel kernel = true
source_eq external external = true
source_eq (other a) (other b) = a == b
source_eq _ _ = false

-- `timestamp` 0 is the zero time.
pub record Envelope : Type 0 where
  pub cursor : ℕ
  pub source : Source
  pub topic : Text
  pub session_id : Text
  pub timestamp : ℕ
  pub payload : Payload

pub record Filter : Type 0 where
  pub sources : List Source
  pub topics : List Text
  pub session_ids : List Text

unfoldable pub contains_source : List Source → Source → Bool
contains_source [] x = false
contains_source (v ∷ xs) x = source_eq v x || contains_source xs x

unfoldable pub contains_string : List Text → Text → Bool
contains_string [] x = false
contains_string (v ∷ xs) x = (v == x) || contains_string xs x

abbrev pub some_of {ℓ} : {A : Type ℓ} → List A → Bool
some_of [] = false
some_of (x ∷ xs) = true

-- `Filter.Match`
unfoldable pub matches : Filter → Envelope → Bool
matches f env =
    if some_of f.sources && not (contains_source f.sources env.source)
    then false
    else (if some_of f.topics && not (contains_string f.topics env.topic)
        then false
        else (if some_of f.session_ids && not (contains_string f.session_ids env.session_id)
            then false
            else true))
