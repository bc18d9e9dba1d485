-- ===== src/Syscalls/Assign.antt =====
-- `assign_syscall` and `remove_syscall` as changes to a partial map from numbers to handlers.
use archa_os.Base.{
  ℕ, ◌<◌, ◌≡◌, ◌≢◌, refl, Bool, true, false, arith, ◌==◌, ==_iff, ltb, if◌then◌else◌, ◌&&◌, ◌↔◌,
  fun_ext,
}
use archa_os.Syscalls.{
  Handler, success, taken, Table, syscall_count, has_exists, assign_syscall, remove_syscall,
  assign_syscall_handler, remove_syscall_handler, assign_syscall_usermode, remove_syscall_usermode,
}

-- The handlers that count as assigned.
abbrev pub assigned : Table → ℕ → Bool
assigned t id = ltb id syscall_count && has_exists (t id).flags

abbrev pub handler : ℕ → ℕ → ℕ → Handler
handler id function flags = record { id = id; flags = flags; function = function }

module _ (id function flags : ℕ) (t : Table) where
  -- An assignment succeeds exactly when the number is in range, the function is no null pointer and
  -- nothing is assigned at the number. Then the handler stands there and no other entry changes;
  -- otherwise the table is unchanged, and the answer is TAKEN exactly when the number is assigned
  -- and the function is no null pointer.
  pub assign_syscall_lem :
      let r = assign_syscall id function flags t in
      ((r.0 ≡ success)
        ↔ ((id < syscall_count) × (function ≢ 0) × (has_exists (t id).flags ≡ false)))
      × ((r.0 ≡ taken) ↔ ((function ≢ 0) × (assigned t id ≡ true)))
      × ((r.0 ≡ success) → (j : ℕ) → r.1 j ≡ (if j == id then handler id function flags else t j))
      × (r.0 ≢ success → r.1 ≡ t)
  unfolding assign_syscall
  assign_syscall_lem =
      ((ground arith, ground arith), (ground arith, ground arith), ground arith, ground arith)

  -- What has been assigned with EXISTS stays: a second assignment is refused and changes nothing.
  pub assign_syscall-assign_syscall :
      (function' flags' : ℕ)
      → has_exists flags ≡ true
      → (assign_syscall id function flags t).0 ≡ success
      → function' ≢ 0
      → let t' = (assign_syscall id function flags t).1 in
        assign_syscall id function' flags' t' ≡ (taken, t')
  unfolding assign_syscall
  assign_syscall-assign_syscall function' flags' ex ok ne = ground arith

  -- After a removal the number can be assigned again, whatever stood there.
  pub assign_syscall-remove_syscall :
      id < syscall_count
      → function ≢ 0
      → let r = assign_syscall id function flags (remove_syscall id t).1 in
        (r.0 ≡ success) × ((j : ℕ) → r.1 j ≡ (if j == id then handler id function flags else t j))
  unfolding assign_syscall remove_syscall
  assign_syscall-remove_syscall lt ne = (ground arith, λ j. ground arith)

  -- A removal undoes an assignment, as far as the map of assigned numbers goes.
  pub remove_syscall-assign_syscall :
      (assign_syscall id function flags t).0 ≡ success
      → (j : ℕ)
      → assigned (remove_syscall id (assign_syscall id function flags t).1).1 j ≡ assigned t j
  unfolding assign_syscall remove_syscall
  remove_syscall-assign_syscall ok j = ground (arith, ==_iff j id)

  -- Assignments at two numbers can be made in either order.
  pub assign_syscall_comm :
      (id' function' flags' : ℕ)
      → id ≢ id'
      → (assign_syscall id' function' flags' (assign_syscall id function flags t).1).1
        ≡ (assign_syscall id function flags (assign_syscall id' function' flags' t).1).1
  unfolding assign_syscall
  assign_syscall_comm id' function' flags' ne = fun_ext λ j. ground arith

-- The entry points that take a handler, by value or through a user pointer, do what the ones that
-- take its fields do.
pub assign_syscall_handler-eq-assign_syscall :
    (h : Handler) (user : ℕ → Handler) (arg1 : ℕ) (t : Table)
    → (assign_syscall_handler h t ≡ assign_syscall h.id h.function h.flags t)
      × (remove_syscall_handler h t ≡ remove_syscall h.id t)
      × (assign_syscall_usermode user arg1 t ≡ assign_syscall_handler (user arg1) t)
      × (remove_syscall_usermode user arg1 t ≡ remove_syscall_handler (user arg1) t)
unfolding assign_syscall_handler assign_syscall remove_syscall_handler remove_syscall
    assign_syscall_usermode remove_syscall_usermode
assign_syscall_handler-eq-assign_syscall h user arg1 t = (refl, refl, refl, refl)

-- Each assigned entry carries its own number and a function.
abbrev pub IsConsistent : Table → Type 0
IsConsistent t = (j : ℕ) → assigned t j ≡ true → ((t j).id ≡ j) × ((t j).function ≢ 0)

pub assign_syscall-IsConsistent :
    (id function flags : ℕ) (t : Table)
    → IsConsistent t
    → IsConsistent (assign_syscall id function flags t).1
unfolding assign_syscall
assign_syscall-IsConsistent id function flags t c j a = ground (arith, c j, ==_iff j id)

pub remove_syscall-IsConsistent :
    (id : ℕ) (t : Table) → IsConsistent t → IsConsistent (remove_syscall id t).1
unfolding remove_syscall
remove_syscall-IsConsistent id t c j a = ground (arith, c j, ==_iff j id)
