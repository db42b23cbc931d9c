-- ===== src/Enums.antt =====
-- packages/core/enums.py: the enumerations of the data model, with the source's members.
pub data ProviderKind : Type 0 where
  gmail slack : ProviderKind

pub data ConnStatus : Type 0 where
  active expired errored needs_reconnect : ConnStatus

pub data JobKind : Type 0 where
  adapter_run send : JobKind

pub data JobState : Type 0 where
  ready running succeeded failed parked cancelled : JobState

pub data ErrorClass : Type 0 where
  transient permanent needs_reconnect config : ErrorClass

pub data SendState : Type 0 where
  in_flight delivered failed_permanent failed_transient uncertain : SendState

pub data RunStatus : Type 0 where
  pending running done failed needs_reconnect : RunStatus

pub data SourceMode : Type 0 where
  live mock degraded : SourceMode
