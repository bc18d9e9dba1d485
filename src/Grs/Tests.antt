-- ===== src/Grs/Tests.antt =====
-- An empty registry, and the theorems on it.
use archa_os.Base.{ℕ, ◌+◌, ◌<◌, ◌^◌, ◌≡◌, refl, ◌==◌, if◌then◌else◌, List, [], ◌∷◌, some, arith}
use archa_os.Grs.{
  init_registry, create_register, no_register, not_exists, read_register, write_register,
  grs_not_exists,
}
use archa_os.Grs.Create.{create_register-IsNumbered, init_registry-IsNumbered, Outcome}
use archa_os.Grs.Lookup.{read_register-write_register}

-- The string at 5 is `k`, and the one at 9 is the name that no register has.
abbrev strings : ℕ → List ℕ
strings p = if p == 9 then not_exists else if p == 5 then b'k' ∷ [] else []

ptr_small : init_registry.ptr + 1 < 2 ^ 64
unfolding init_registry
ptr_small = omega arith

create_register-IsNumbered_example :
    Outcome strings 5 77 init_registry (create_register strings 5 77 init_registry)
create_register-IsNumbered_example =
    create_register-IsNumbered strings 5 77 init_registry init_registry-IsNumbered ptr_small

read_register-write_register_example :
    (read_register strings 9 no_register 1 5 40 ≡ some grs_not_exists)
    × (write_register strings 9 no_register 1 5 40 init_registry
        ≡ some (some grs_not_exists, init_registry))
read_register-write_register_example =
    read_register-write_register strings 9 no_register refl 0 5 40 init_registry
