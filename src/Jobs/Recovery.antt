-- ===== src/Jobs/Recovery.antt =====
-- packages/core/jobs/recovery.py and the outcomes of packages/core/jobs/runtime.py: how a job that a
-- crashed worker left behind is routed.
use unified_search_safe_send.Enums.{JobKind, adapter_run, send}

pub data RecoveryPolicy : Type 0 where
  retry reconcile : RecoveryPolicy

-- Both kinds are registered; the default for a kind that is not is `reconcile`.
unfoldable pub policy_for : JobKind → RecoveryPolicy
policy_for adapter_run = retry
policy_for send = reconcile

pub data ReconcileOutcome : Type 0 where
  safe_to_dispatch resolved inconclusive : ReconcileOutcome
