-- ===== src/Syscalls/Tests.antt =====
-- Runs of the model of syscalls.c on the table that is all zero, and on one with a handler at 7.
use archa_os.Base.{ℕ, ◌+◌, ◌<◌, ◌≡◌, ◌≢◌, refl, true, false, arith, ◌==◌, if◌then◌else◌, ◌↔◌}
use archa_os.Syscalls.{
  Table, Frame, Services, System, read, success, taken, invalid, code, assign_syscall,
  remove_syscall, syscall_dispatch, syscall_count, has_exists,
}
use archa_os.Syscalls.Assign.{assigned, handler, assign_syscall_lem, IsConsistent}
use archa_os.Syscalls.Dispatch.{
  syscall_dispatch-assign_syscall, syscall_dispatch-remove_syscall, here, next, assign, remove,
  Reach-IsConsistent,
}

abbrev zeros : Table
zeros j = handler 0 0 0

abbrev invoked : ℕ → Frame → Table → ℕ × Table
invoked function f t = (function + f.arg1, t)

abbrev call_seven : Frame
call_seven = record { id = 7; arg1 = 1; arg2 = 2; arg3 = 3; arg4 = 4; arg5 = 5; arg6 = 6 }

assigns : (assign_syscall 7 0x4000 1 zeros).0 ≡ success
unfolding assign_syscall
assigns = refl

assign_syscall_lem_example :
    let function : ℕ = 0x4000 in
    let r = assign_syscall 7 0x4000 1 zeros in
    ((r.0 ≡ success)
      ↔ ((7 < syscall_count) × (function ≢ 0) × (has_exists (zeros 7).flags ≡ false)))
    × ((r.0 ≡ taken) ↔ ((function ≢ 0) × (assigned zeros 7 ≡ true)))
    × ((r.0 ≡ success) → (j : ℕ) → r.1 j ≡ (if j == 7 then handler 7 0x4000 1 else zeros j))
    × (r.0 ≢ success → r.1 ≡ zeros)
assign_syscall_lem_example = assign_syscall_lem 7 0x4000 1 zeros

syscall_dispatch-assign_syscall_example :
    let t' = (assign_syscall 7 0x4000 1 zeros).1 in
    syscall_dispatch invoked call_seven t' ≡ read (code invalid, t')
syscall_dispatch-assign_syscall_example =
    syscall_dispatch-assign_syscall invoked call_seven zeros 0x4000 1 refl assigns

syscall_dispatch-remove_syscall_example :
    let t' = (remove_syscall 7 (assign_syscall 7 0x4000 1 zeros).1).1 in
    syscall_dispatch invoked call_seven t' ≡ read (invoked 0x4000 call_seven t')
syscall_dispatch-remove_syscall_example =
    syscall_dispatch-remove_syscall invoked call_seven zeros 0x4000 1 (omega arith) assigns

abbrev services : Services
services = record {
  assign_service = 0x4000;
  remove_service = 0x5000;
  return_service = 0x6000;
  config_mode = 0x7000;
  syscall_entry = 0x8000;
}

abbrev cold : System
cold = record { table = zeros; msrs = λ r. 0 }

Reach-IsConsistent_example : IsConsistent (remove_syscall 7 (assign_syscall 7 0x4000 1 zeros).1).1
Reach-IsConsistent_example =
    Reach-IsConsistent (λ j. refl) (next (next here (assign 7 0x4000 1 zeros)) (remove 7 _))
