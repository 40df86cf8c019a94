-- ===== src/Store.antt =====
-- Starting and cancelling workflows (durable-workflows/src/store.rs): the options of a start, and
-- what its parts share. A timestamp that a caller asks for is its milliseconds.
pub mod Start
pub mod Generations
pub mod Cancel
pub mod Recover
use durable_workflows.Base.{ℕ, Bool, ◌||◌, ◌==◌, ltb, if◌then◌else◌, String, Option, none, some}
use durable_workflows.Base.Int.{ℤ}
use durable_workflows.Base.Outcome
use durable_workflows.Base.Outcome.{Result, ok, err, invalid_definition}
use durable_workflows.Text.{chars, ensure_size}

-- A caller's key, or the lineage of a restart, or neither.
pub data StartLineage : Type 0 where
  fresh : StartLineage
  deduplicated : String → StartLineage
  restart : (root from : ℤ) → StartLineage

pub record StartOptions : Type 0 where
  pub available_at : Option ℤ
  pub schedule_run_id : Option ℤ
  pub lineage : StartLineage

abbrev key_of : StartLineage → Option String
key_of (StartLineage.deduplicated key) = some key
key_of lineage = none

abbrev pub deduplication_key : StartOptions → Option String
deduplication_key options = key_of options.lineage

abbrev root_of : StartLineage → Option ℤ
root_of (StartLineage.restart root from) = some root
root_of lineage = none

abbrev pub root_workflow_id : StartOptions → Option ℤ
root_workflow_id options = root_of options.lineage

abbrev source_of : StartLineage → Option ℤ
source_of (StartLineage.restart root from) = some from
source_of lineage = none

abbrev pub restarted_from_workflow_id : StartOptions → Option ℤ
restarted_from_workflow_id options = source_of options.lineage

abbrev pub restarted : StartOptions → ℤ → ℤ → StartOptions
restarted options root from = record options { lineage = StartLineage.restart root from }

abbrev pub max_deduplication_key_chars : ℕ
max_deduplication_key_chars = 191

abbrev pub max_input_state_payload_bytes : ℕ
max_input_state_payload_bytes = 262_144

-- A key has 1 to 191 characters.
unfoldable pub validate_key : String → Result (Unit {0})
unfolding chars
validate_key key =
    if chars key == 0 || ltb max_deduplication_key_chars (chars key)
    then err invalid_definition
    else ok tt

abbrev validate_optional : Option String → Result (Unit {0})
validate_optional none = ok tt
validate_optional (some key) = validate_key key

unfoldable pub validate_options : StartOptions → Result (Unit {0})
unfolding validate_key
validate_options options = validate_optional (deduplication_key options)

-- `PreparedWorkflowStart`.
pub record PreparedStart : Type 0 where
  pub kind : String
  pub version : ℤ
  pub input_json : String
  pub state_json : String

unfoldable pub check_prepared_start : PreparedStart → StartOptions → Result (Unit {0})
unfolding validate_options ensure_size
check_prepared_start prepared options = Outcome.◌>>◌ (validate_options options) (
    Outcome.◌>>◌ (ensure_size prepared.input_json max_input_state_payload_bytes)
      (ensure_size prepared.state_json max_input_state_payload_bytes))

pub record StartOutcome : Type 0 where
  pub workflow_id : ℤ
  pub inserted : Bool
