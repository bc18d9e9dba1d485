-- ===== src/Syscalls/Dispatch.antt =====
-- `syscall_dispatch`, `syscall_config_mode` and `init_syscalls`: what a caller can reach.
use archa_os.Base.{ℕ, ◌≤◌, ◌≡◌, ◌≢◌, refl, true, arith, ◌==◌, if◌then◌else◌, ◌↔◌}
use archa_os.Syscalls.{
  success, Table, syscall_count, assign_syscall, remove_syscall, syscall_config_mode, Services,
  read, out_of_bounds, Frame, syscall_dispatch, init_syscalls, System, clear_bytes, code,
  has_exists, invalid,
}
use archa_os.Syscalls.Assign.{
  handler, IsConsistent, assign_syscall-IsConsistent, remove_syscall-IsConsistent,
}

module _ (invoke : ℕ → Frame → Table → ℕ × Table) (f : Frame) (t : Table) where
  -- A handler that has been assigned with EXISTS is not called: the answer to its number is INVALID,
  -- and the table stays as it is.
  pub syscall_dispatch-assign_syscall :
      (function flags : ℕ)
      → has_exists flags ≡ true
      → (assign_syscall f.id function flags t).0 ≡ success
      → let t' = (assign_syscall f.id function flags t).1 in
        syscall_dispatch invoke f t' ≡ read (code invalid, t')
  unfolding syscall_dispatch assign_syscall
  syscall_dispatch-assign_syscall function flags ex ok = ground arith

  -- The number one past the table passes the check, and is the only one read out of bounds.
  pub syscall_dispatch-out_of_bounds_iff :
      (syscall_dispatch invoke f t ≡ out_of_bounds) ↔ (f.id ≡ syscall_count)
  unfolding syscall_dispatch
  syscall_dispatch-out_of_bounds_iff = ground arith

  -- A handler that was assigned and then removed is still called, if its number is not 0.
  pub syscall_dispatch-remove_syscall :
      (function flags : ℕ)
      → f.id ≢ 0
      → (assign_syscall f.id function flags t).0 ≡ success
      → let t' = (remove_syscall f.id (assign_syscall f.id function flags t).1).1 in
        syscall_dispatch invoke f t' ≡ read (invoke function f t')
  unfolding syscall_dispatch assign_syscall remove_syscall
  syscall_dispatch-remove_syscall function flags nz ok = ground arith

-- The configuration mode installs its first two services over whatever stood there, keeps every
-- other entry, and does not install the third: its number is out of range.
pub syscall_config_mode_lem :
    (s : Services) (t : Table)
    → s.assign_service ≢ 0
    → s.remove_service ≢ 0
    → (j : ℕ)
    → syscall_config_mode s t j ≡ (
        if j == 2046
        then handler 2046 s.assign_service 3
        else if j == 2047
        then handler 2047 s.remove_service 3
        else t j)
unfolding syscall_config_mode assign_syscall remove_syscall
syscall_config_mode_lem s t a b j = ground arith

-- `init_syscalls` never installs the configuration mode: number 2049 is out of range, so the table
-- is the one that the `memset` leaves, and only the machine's registers change.
pub init_syscalls-table :
    (s : Services) (y : System) → (init_syscalls true s y).1.table ≡ clear_bytes y.table
unfolding init_syscalls assign_syscall
init_syscalls-table s y = refl

-- The `memset` leaves every handler from number 86 on as it was.
pub init_syscalls_stale :
    (s : Services) (y : System) (j : ℕ) → 86 ≤ j → (init_syscalls true s y).1.table j ≡ y.table j
unfolding init_syscalls assign_syscall clear_bytes
init_syscalls_stale s y j h = ground arith

syscall_config_mode-IsConsistent :
    (s : Services) (t : Table) → IsConsistent t → IsConsistent (syscall_config_mode s t)
unfolding syscall_config_mode
syscall_config_mode-IsConsistent s t c = assign_syscall-IsConsistent _ _ _ _ (
    assign_syscall-IsConsistent _ _ _ _ (
      assign_syscall-IsConsistent _ _ _ _ (
        remove_syscall-IsConsistent _ _
          (remove_syscall-IsConsistent _ _ (remove_syscall-IsConsistent _ _ c)))))

-- What changes the table once the kernel runs.
pub data Step : Table → Table → Type 0 where
  assign : (id function flags : ℕ) (t : Table) → Step t (assign_syscall id function flags t).1
  remove : (id : ℕ) (t : Table) → Step t (remove_syscall id t).1
  config : (s : Services) (t : Table) → Step t (syscall_config_mode s t)

pub data Reach (t : Table) : Table → Type 0 where
  here : Reach t t
  next : {u w : Table} → Reach t u → Step u w → Reach t w

Step-IsConsistent : {t u : Table} → Step t u → IsConsistent t → IsConsistent u
Step-IsConsistent (assign id function flags t) c = assign_syscall-IsConsistent id function flags t c
Step-IsConsistent (remove id t) c = remove_syscall-IsConsistent id t c
Step-IsConsistent (config s t) c = syscall_config_mode-IsConsistent s t c

-- The static array, all zero, and whatever sequence of assignments, removals and configurations
-- follows: every assigned entry carries its own number and a function that is no null pointer.
pub Reach-IsConsistent :
    {t u : Table} → ((j : ℕ) → t j ≡ handler 0 0 0) → Reach t u → IsConsistent u
Reach-IsConsistent zero here = λ j a. ground (arith, zero j)
Reach-IsConsistent zero (next r s) = Step-IsConsistent s (Reach-IsConsistent zero r)
