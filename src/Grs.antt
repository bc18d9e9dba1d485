-- ===== src/Grs.antt =====
-- The registry of named values, kernel/grs/grs.c. A string is the bytes before its NUL, by pointer;
-- the registers are kept by index. `remove_at` and `destroy_register` are not modelled.
pub mod Create
pub mod Lookup
pub mod Tests
use archa_os.Base.{
  ℕ, zero, suc, ◌+◌, ◌*◌, ◌%◌, ◌^◌, Bool, true, false, ◌==◌, ltb, leb, if◌then◌else◌, ◌||◌, List,
  [], ◌∷◌, Option, none, some,
}
use archa_os.Fs.{same}

abbrev pub u64 : ℕ → ℕ
u64 n = n % 2 ^ 64

abbrev pub max_registers : ℕ
max_registers = 500

pub record Register : Type 0 where
  name : ℕ
  id : ℕ
  value : ℕ

pub data GrsReturn : Type 0 where
  grs_success : GrsReturn
  grs_failed : GrsReturn
  grs_reg_filled : GrsReturn
  grs_not_exists : GrsReturn
  grs_invalid : GrsReturn

-- `registry_mem_base`, `registry_mem_size` and `registry_mem_ptr`.
pub record Registry : Type 0 where
  register : ℕ → Register
  size : ℕ
  ptr : ℕ

abbrev pub no_register : Register
no_register = record { name = 0; id = 0; value = 0 }

-- `init_registry`; `kcalloc` is taken to succeed, and gives zeroes.
unfoldable pub init_registry : Registry
init_registry = record { register = λ i. no_register; size = max_registers * 24; ptr = 0 }

-- `"GRS_NOT_EXISTS"`.
abbrev pub not_exists : List ℕ
not_exists =
    b'G' ∷ b'R' ∷ b'S' ∷ b'_' ∷ b'N' ∷ b'O' ∷ b'T' ∷ b'_' ∷ b'E' ∷ b'X' ∷ b'I' ∷ b'S' ∷ b'T' ∷ b'S'
    ∷ []

unfoldable pub create_register : (ℕ → List ℕ) → ℕ → ℕ → Registry → GrsReturn × Registry
create_register text name value r =
    let ptr = u64 (r.ptr + 1) in
    let moved = record r { ptr = ptr } in
    let new : Register = record { name = name; id = ptr; value = value } in
    if same (text name) not_exists
    then (grs_invalid, r)
    else if (name == 0) || (value == 0)
    then (grs_invalid, r)
    else if leb max_registers ptr
    then (grs_reg_filled, moved)
    else (grs_success, record moved { register = λ i. if i == ptr then new else r.register i })

-- The loop of `ret_register_handler`, from `i` on: the register, if the loop returns it.
unfoldable pub handler_loop : ℕ → Register → ℕ → ℕ → Option (Option Register)
handler_loop zero a i name = none
handler_loop (suc fuel) a i name =
    let rest = handler_loop fuel a (i + 1) name in
    if ltb max_registers i then if a.name == name then some (some a) else rest else some none

module _ (text : ℕ → List ℕ) (literal : ℕ) (a : Register) where
  -- `ret_register_handler`; `a` is its local variable as it is on entry, and `literal` is the
  -- pointer to the string "GRS_NOT_EXISTS".
  unfoldable pub ret_register_handler : ℕ → ℕ → Option Register
  ret_register_handler fuel name = elim (handler_loop fuel a 0 name) [
    | none ↦ none
    | some none ↦ some (record a { name = literal })
    | some (some b) ↦ some b
  ]

  -- `read_buf = b.value` changes the parameter only.
  unfoldable pub read_register : ℕ → ℕ → ℕ → Option GrsReturn
  read_register fuel name read_buf =
      if (name == 0) || (read_buf == 0)
      then some grs_invalid
      else elim (ret_register_handler fuel name) [
        | none ↦ none
        | some b ↦ if same (text b.name) not_exists then some grs_not_exists else some grs_success
      ]

  abbrev pub wrt_register_handler : Register → Registry → Registry
  wrt_register_handler handler r = record r {
    register = λ i. if i == handler.id then handler else r.register i;
  }

  -- The end is reached without a `return` when the register is found: no result.
  unfoldable pub write_register : ℕ → ℕ → ℕ → Registry → Option (Option GrsReturn × Registry)
  write_register fuel name write_buf r =
      if (name == 0) || (write_buf == 0)
      then some (some grs_invalid, r)
      else elim (ret_register_handler fuel name) [
        | none ↦ none
        | some b ↦
            if same (text b.name) not_exists
            then some (some grs_not_exists, r)
            else some (none, wrt_register_handler b r)
      ]
