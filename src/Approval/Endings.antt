-- ===== src/Approval/Endings.antt =====
-- For internal/orchestration/change/change.go: calls of a change that has ended, and the versions
-- that calls expect.
use control_center_developme.Prelude.{
  arith, Bool, false, List, refl, true, ℕ, [], ◌%◌, ◌+◌, ◌∷◌, ◌≡◌, ◌⊎◌,
}
use control_center_developme.Approval.Change.{
  add_approval, allowed_change, approve, approving, Call, cancelled, change_state, failed, moving,
  rejected, run, Snapshot, State, step, succeeded,
}

abbrev pub is_final : State → Bool
is_final succeeded = true
is_final failed = true
is_final cancelled = true
is_final rejected = true
is_final _ = false

step-final : (call : Call) (m : Snapshot) → is_final m.state ≡ true → step call m ≡ m
unfolding step approve change_state allowed_change
step-final (approving approval version now) m f = ground arith
step-final (moving to version now) m f = ground arith

-- A change that has succeeded, failed, or was cancelled or rejected, stays as it is, whatever calls
-- follow.
pub run-keeps_final : (calls : List Call) (m : Snapshot) → is_final m.state ≡ true → run calls m ≡ m
unfolding run
run-keeps_final [] m f = refl
run-keeps_final (call ∷ calls) m f =
    let same = step-final call m f in rw same (run-keeps_final calls m f)

abbrev pub expected : Call → ℕ
expected (approving approval expected_version now) = expected_version
expected (moving to expected_version now) = expected_version

abbrev pub time_of : Call → ℕ
time_of (approving approval expected_version now) = now
time_of (moving to expected_version now) = now

-- A call that changes the machine expects its version, raises the version by one and dates the
-- machine; any other call leaves it as it is.
pub step-version :
    (call : Call) (m : Snapshot)
    → (step call m ≡ m)
      ⊎ ((expected call ≡ m.version)
          × ((step call m).version ≡ (m.version + 1) % 18446744073709551616)
          × ((step call m).updated_at ≡ time_of call))
unfolding step approve change_state add_approval
step-version (approving approval version now) m = ground arith
step-version (moving to version now) m = ground arith
