-- ===== src/Model/Event.antt =====
-- The event types of the audit log that internal/release/application/service.go writes, each the text
-- that its name spells.
pub data Event : Type 0 where
  release_deduplicated release_requested release_started release_retried release_skipped : Event
  rollback_completed traffic_percent_updated switch_confirmed late_task_update_ignored : Event
  cleanup_pruned cleanup_failed startup_grace_started health_probe_retry : Event
  ready_to_switch traffic_switched rolled_back release_superseded release_auto_skipped : Event
  managed_container_conflict health_check_failed failure_logs_uploaded : Event
  failed_container_cleaned task_failed task_timed_out task_replayed : Event
  dispatch_deferred dispatch_failed agent_offline_timeout : Event
