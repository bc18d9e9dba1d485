-- ===== src/Syscalls.antt =====
-- The system call table, kernel/arch/x86_64/syscalls/syscalls.c. `syscalls` is a function of the
-- index; a read of the array at or past SYSCALL_COUNT is `out_of_bounds`. Function pointers are
-- addresses, and what a call of one does is the parameter `invoke`.
pub mod Assign
pub mod Dispatch
pub mod Tests
use archa_os.Base.{
  ℕ, ◌-◌, ◌*◌, ◌^◌, Bool, true, false, ◌==◌, ltb, leb, if◌then◌else◌, not, ◌&&◌, ◌||◌, bit_and,
  bit_or,
}

abbrev pub syscall_count : ℕ
syscall_count = 2048

-- `SYSCALL_HANDLER`.
pub record Handler : Type 0 where
  pub id : ℕ
  pub flags : ℕ
  pub function : ℕ

-- `enum syscall_return`.
pub data SyscallReturn : Type 0 where
  success error valid invalid taken not_privilaged : SyscallReturn

-- The number that `syscall_dispatch` returns for a status.
abbrev pub code : SyscallReturn → ℕ
code success = 0
code error = 1
code valid = 2
code invalid = 3
code taken = 4
code not_privilaged = 5

abbrev pub flag_exists : ℕ
flag_exists = 1

abbrev pub flag_kernel_only : ℕ
flag_kernel_only = 2

abbrev pub flag_write_protected : ℕ
flag_write_protected = 8

abbrev pub Table : Type 0
Table = ℕ → Handler

-- `FLAGS & SYSCALL_FLAG_EXISTS`.
abbrev pub has_exists : ℕ → Bool
has_exists flags = not (bit_and flags flag_exists == 0)

-- `syscalls[id] = h`.
abbrev pub store_handler : Table → ℕ → Handler → Table
store_handler t id h j = if j == id then h else t j

unfoldable pub assign_syscall_handler : Handler → Table → SyscallReturn × Table
assign_syscall_handler h t =
    if leb syscall_count h.id || (h.function == 0)
    then (invalid, t)
    else if has_exists (t h.id).flags
    then (taken, t)
    else (success, store_handler t h.id h)

unfoldable pub remove_syscall_handler : Handler → Table → SyscallReturn × Table
remove_syscall_handler h t =
    if leb syscall_count h.id
    then (invalid, t)
    else (success, store_handler t h.id (record (t h.id) { flags = 0 }))

unfoldable pub assign_syscall : ℕ → ℕ → ℕ → Table → SyscallReturn × Table
assign_syscall id function flags t =
    if leb syscall_count id || (function == 0)
    then (invalid, t)
    else if has_exists (t id).flags
    then (taken, t)
    else (success, store_handler t id (record { id = id; flags = flags; function = function }))

unfoldable pub remove_syscall : ℕ → Table → SyscallReturn × Table
remove_syscall id t =
    if leb syscall_count id
    then (invalid, t)
    else (success, store_handler t id (record (t id) { flags = 0 }))

-- The wrappers for user mode read a handler through the pointer ARG1; `user` is that memory.
unfoldable pub assign_syscall_usermode : (ℕ → Handler) → ℕ → Table → SyscallReturn × Table
assign_syscall_usermode user arg1 t =
    assign_syscall (user arg1).id (user arg1).function (user arg1).flags t

unfoldable pub remove_syscall_usermode : (ℕ → Handler) → ℕ → Table → SyscallReturn × Table
remove_syscall_usermode user arg1 t = remove_syscall (user arg1).id t

pub data Access {ℓ} (A : Type ℓ) : Type ℓ where
  read : A → Access A
  out_of_bounds : Access A

-- `syscalls[id]`.
abbrev pub entry : Table → ℕ → Access Handler
entry t id = if ltb id syscall_count then read (t id) else out_of_bounds

unfoldable pub return_syscall_usermode : ℕ → Table → Access Handler
return_syscall_usermode id t = if ltb syscall_count id then entry t (2048 - 1) else entry t id

-- The addresses of the three services that the configuration mode installs, and of that mode.
pub record Services : Type 0 where
  pub assign_service : ℕ
  pub remove_service : ℕ
  pub return_service : ℕ
  pub config_mode : ℕ
  pub syscall_entry : ℕ

unfoldable pub syscall_config_mode : Services → Table → Table
syscall_config_mode f t =
    let t₁ = (remove_syscall 2046 t).1 in
    let t₂ = (remove_syscall 2047 t₁).1 in
    let t₃ = (remove_syscall 2048 t₂).1 in
    let flags = bit_or flag_exists flag_kernel_only in
    let t₄ = (assign_syscall 2046 f.assign_service flags t₃).1 in
    let t₅ = (assign_syscall 2047 f.remove_service flags t₄).1 in
    (assign_syscall 2048 f.return_service flags t₅).1

-- `struct syscall_frame`.
pub record Frame : Type 0 where
  pub id : ℕ
  pub arg1 : ℕ
  pub arg2 : ℕ
  pub arg3 : ℕ
  pub arg4 : ℕ
  pub arg5 : ℕ
  pub arg6 : ℕ

-- `invoke function frame table` is a call of the function at that address with the six arguments.
module _ (invoke : ℕ → Frame → Table → ℕ × Table) where
  unfoldable pub syscall_dispatch : Frame → Table → Access (ℕ × Table)
  syscall_dispatch f t =
      if ltb syscall_count f.id then read (code invalid, t) else elim (entry t f.id) [
        | out_of_bounds ↦ out_of_bounds
        | read h ↦
            if (h.id == 0) || has_exists h.flags
            then read (code invalid, t)
            else read (invoke h.function f t)
      ]

-- The model specific registers.
abbrev pub Msrs : Type 0
Msrs = ℕ → ℕ

abbrev pub wrmsr : ℕ → ℕ → Msrs → Msrs
wrmsr r v m j = if j == r then v else m j

abbrev pub msr_efer : ℕ
msr_efer = 0xC0000080

abbrev pub msr_star : ℕ
msr_star = 0xC0000081

abbrev pub msr_lstar : ℕ
msr_lstar = 0xC0000082

abbrev pub msr_fmask : ℕ
msr_fmask = 0xC0000084

-- `_init_syscalls`: enable the instruction, KERNEL_CS and USER_CS, the entry point, no masked flags.
unfoldable pub init_syscall_msrs : ℕ → Msrs → Msrs
init_syscall_msrs syscall_entry m =
    let m₁ = wrmsr msr_efer (bit_or (m msr_efer) 1) m in
    let star = bit_or (bit_or (m₁ msr_star) (0x08 * 2 ^ 32)) (0x18 * 2 ^ 48) in
    let m₂ = wrmsr msr_star star m₁ in
    let m₃ = wrmsr msr_lstar syscall_entry m₂ in wrmsr msr_fmask 0 m₃

-- `memset(syscalls, 0, SYSCALL_COUNT)` counts bytes. A handler takes 24, so it reaches 85 handlers
-- and the first field of one more.
unfoldable pub clear_bytes : Table → Table
clear_bytes t j =
    if ltb j 85
    then record { id = 0; flags = 0; function = 0 }
    else if j == 85
    then record (t j) { id = 0 }
    else t j

pub record System : Type 0 where
  pub table : Table
  pub msrs : Msrs

-- `has_msr` is the answer of `has_cpu_msr`.
unfoldable pub init_syscalls : Bool → Services → System → Bool × System
init_syscalls has_msr f s =
    if not has_msr
    then (false, s)
    else let t = clear_bytes s.table in
      let flags = bit_or flag_exists flag_write_protected in
      (
        true,
        record {
          table = (assign_syscall 2049 f.config_mode flags t).1;
          msrs = init_syscall_msrs f.syscall_entry s.msrs;
        },
      )
