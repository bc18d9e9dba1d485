-- ===== src/Grs/Lookup.antt =====
-- What `read_register` and `write_register` of kernel/grs/grs.c find.
use archa_os.Base.{
  ℕ, suc, ◌≡◌, refl, ◌==◌, if◌then◌else◌, ◌||◌, Bool, true, false, List, Option, some,
}
use archa_os.Fs.{same}
use archa_os.Grs.{
  Register, Registry, GrsReturn, grs_invalid, grs_not_exists, not_exists, handler_loop,
  ret_register_handler, read_register, write_register,
}

same-not_exists : same not_exists not_exists ≡ true
unfolding same
same-not_exists = refl

module _ (text : ℕ → List ℕ) (literal : ℕ) (a : Register) where
  ret_register_handler_none :
      (fuel name : ℕ)
      → ret_register_handler text literal a (suc fuel) name ≡ some (record a { name = literal })
  unfolding ret_register_handler handler_loop
  ret_register_handler_none fuel name = refl

  -- Whatever the registry holds, `read_register` and `write_register` say that a register with the
  -- name does not exist, unless a pointer is NULL, and `write_register` leaves the registry as it is.
  -- The condition is that `literal` points to the string "GRS_NOT_EXISTS".
  pub read_register-write_register :
      text literal ≡ not_exists
      → (fuel name buf : ℕ) (r : Registry)
      → let code = if (name == 0) || (buf == 0) then grs_invalid else grs_not_exists in
        (read_register text literal a (suc fuel) name buf ≡ some code)
        × (write_register text literal a (suc fuel) name buf r ≡ some (some code, r))
  unfolding read_register write_register
  read_register-write_register e fuel name buf r =
      let b = (name == 0) || (buf == 0) in
      rw (ret_register_handler_none fuel name, e, same-not_exists) (read b, written b)
    where
      read :
          (b : Bool)
          → (if b then some grs_invalid else some grs_not_exists)
            ≡ some (if b then grs_invalid else grs_not_exists)
      read true = refl
      read false = refl

      Written : Type 0
      Written = Option (Option GrsReturn × Registry)

      written :
          (b : Bool)
          → let no : Written = some (some grs_invalid, r) in
            let none_there : Written = some (some grs_not_exists, r) in
            (if b then no else none_there)
            ≡ some (some (if b then grs_invalid else grs_not_exists), r)
      written true = refl
      written false = refl
