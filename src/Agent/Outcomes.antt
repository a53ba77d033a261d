-- ===== src/Agent/Outcomes.antt =====
-- cmd/mantler/start.go, outcomeBuffer: the outcomes that wait for the next check-in, and their copy in a
-- file. A flag tells whether the file can be written.
pub mod Queue
use mantlerd.Base.{
  ℕ, ◌-◌, Bool, true, false, String, List, [], ◌∷◌, ◌++◌, Option, none, some, length, drop, ltb,
  leb, ◌==◌, str_eq, trim_space, if◌then◌else◌,
}
use mantlerd.Runtime.Start.{OutcomeEvent}

pub record Buffer : Type 0 where
  pub events : List OutcomeEvent
  -- what the file holds
  pub file : List OutcomeEvent

abbrev pub max_events : ℕ
max_events = 2000

unfoldable pub persist : Bool → Buffer → Buffer
persist written b = if written then record b { file = b.events } else b

abbrev pub stamped : String → OutcomeEvent → OutcomeEvent
stamped now e = if str_eq (trim_space e.timestamp) "" then record e { timestamp = now } else e

-- The last 2000 events.
abbrev pub newest : List OutcomeEvent → List OutcomeEvent
newest es = if ltb max_events (length es) then drop (length es - max_events) es else es

unfoldable pub add : Bool → String → OutcomeEvent → Buffer → Buffer
add written now e b =
    if str_eq (trim_space e.event_type) ""
    then b
    else persist written (record b { events = newest (b.events ++ stamped now e ∷ []) })

unfoldable pub snapshot : Buffer → List OutcomeEvent
snapshot b = b.events

unfoldable pub drop_prefix : Bool → ℕ → Buffer → Buffer
drop_prefix written count b =
    if count == 0
    then b
    else persist written
        (record b { events = if leb (length b.events) count then [] else drop count b.events })

-- newOutcomeBuffer, where the file can be read.
unfoldable pub load : List OutcomeEvent → Buffer
load file = record { events = file; file = file }
