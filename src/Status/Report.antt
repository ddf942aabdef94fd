-- ===== src/Status/Report.antt =====
-- status.py: what a status holds.
use cactus_runner.Prelude.{String, Bool, List, Option, none}
use cactus_runner.Prelude.Int.{ℤ}
use cactus_runner.Prelude.Dict.{Dict}
use cactus_runner.Exec.{Exception}
use cactus_runner.Definitions.{Time}
use cactus_runner.Models.{ClientInteraction, RequestEntry, WarningEntry}
use cactus_runner.Status.Metadata.{EndDeviceMetadata}

-- What is said of a check: its description, or that it raised.
pub data Details : Type 0 where
  described : String → Details
  unexpected_error : Exception → Details

-- CriteriaEntry and PreconditionCheckEntry have these fields.
pub record CheckEntry : Type 0 where
  pub success : Bool
  pub type : String
  pub details : Details

pub record StepEventStatus : Type 0 where
  pub started_at : Option Time
  pub completed_at : Option Time
  pub event_status : Option String

pub record DataStreamPoint : Type 0 where
  pub watts : Option ℤ
  pub offset : String

pub record TimelineDataStreamEntry : Type 0 where
  pub label : String
  pub points : List DataStreamPoint
  pub stepped : Bool
  pub dashed : Bool

-- The largest power of the device in each direction, with the name of the setting it comes from.
pub record DeviceMax : Type 0 where
  pub upper_max_w : Option ℤ
  pub upper_max_label : Option String
  pub lower_max_w : Option ℤ
  pub lower_max_label : Option String

pub record TimelineStatus : Type 0 where
  pub data_streams : List TimelineDataStreamEntry
  pub set_max_w : Option ℤ
  pub now_offset : String
  pub device_max : DeviceMax

pub record RunnerStatus : Type 0 where
  pub timestamp_status : Time
  pub timestamp_initialise : Option Time
  pub timestamp_start : Option Time
  pub csip_aus_version : String
  pub log_envoy : String
  pub test_procedure_name : Option String
  pub last_client_interaction : ClientInteraction
  pub criteria : List CheckEntry
  pub precondition_checks : List CheckEntry
  pub instructions : Option (List String)
  pub status_summary : String
  pub step_status : Dict StepEventStatus
  pub request_history : List RequestEntry
  pub timeline : Option TimelineStatus
  pub end_device_metadata : Option EndDeviceMetadata
  pub warnings : List WarningEntry

abbrev pub no_max : DeviceMax
no_max = record {
  upper_max_w = none;
  upper_max_label = none;
  lower_max_w = none;
  lower_max_label = none;
}
