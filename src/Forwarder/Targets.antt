-- ===== src/Forwarder/Targets.antt =====
-- `FailedTargetManager` of src/client/forwarder.rs. The time in seconds is an argument of each call.
use tls_tunnel.Prelude.{
  ℕ, ◌+◌, ◌%◌, Bool, false, Option, none, some, List, [], ◌∷◌, ltb, leb, if◌then◌else◌, Str, retain,
  length, Table, lookup, insert, remove, nat_eq, list_eq,
}

pub record FailedTarget : Type 0 where
  pub failure_count : ℕ  -- u32
  pub blacklist_time : ℕ

abbrev pub FailedTargetManager : Type 0
FailedTargetManager = Table Str FailedTarget

abbrev pub failed_target_threshold : ℕ
failed_target_threshold = 3

-- thirty minutes
abbrev pub failed_target_timeout : ℕ
failed_target_timeout = 1800

abbrev pub is_active : ℕ → FailedTarget → Bool
is_active now failed = ltb now (failed.blacklist_time + failed_target_timeout)

abbrev pub is_active_entry : ℕ → Option FailedTarget → Bool
is_active_entry now none = false
is_active_entry now (some failed) = is_active now failed

unfoldable pub is_blacklisted : FailedTargetManager → Str → ℕ → Bool
is_blacklisted targets target now = is_active_entry now (lookup target targets)

abbrev pub entry_or_new : ℕ → Option FailedTarget → FailedTarget
entry_or_new now (some failed) = failed
entry_or_new now none = record { failure_count = 0; blacklist_time = now }

unfoldable pub count_failure : ℕ → FailedTarget → FailedTarget
count_failure now failed =
    let count = (failed.failure_count + 1) % 4294967296 in
    record {
      failure_count = count;
      blacklist_time = if leb failed_target_threshold count then now else failed.blacklist_time;
    }

unfoldable pub record_failure : FailedTargetManager → Str → ℕ → FailedTargetManager
unfolding count_failure
record_failure targets target now =
    insert target (count_failure now (entry_or_new now (lookup target targets))) targets

abbrev pub expired_targets : ℕ → FailedTargetManager → List Str
expired_targets now [] = []
expired_targets now ((target, failed) ∷ rest) =
    let others = expired_targets now rest in
    if leb (failed.blacklist_time + failed_target_timeout) now then target ∷ others else others

abbrev pub remove_all : List Str → FailedTargetManager → FailedTargetManager
remove_all [] targets = targets
remove_all (target ∷ rest) targets = remove_all rest (remove target targets)

unfoldable pub cleanup_expired_targets : FailedTargetManager → ℕ → FailedTargetManager
cleanup_expired_targets targets now = remove_all (expired_targets now targets) targets

unfoldable pub failed_targets_count : FailedTargetManager → ℕ → ℕ
failed_targets_count targets now =
    length (retain (λ (e : Str × FailedTarget). is_active now e.1) targets)

-- A history of calls that change the manager.
pub data Call : Type 0 where
  failure : (target : Str) (now : ℕ) → Call
  cleanup : (now : ℕ) → Call

unfoldable pub perform : FailedTargetManager → Call → FailedTargetManager
perform targets (failure target now) = record_failure targets target now
perform targets (cleanup now) = cleanup_expired_targets targets now

unfoldable pub perform_all : FailedTargetManager → List Call → FailedTargetManager
perform_all targets [] = targets
perform_all targets (c ∷ cs) = perform_all (perform targets c) cs
