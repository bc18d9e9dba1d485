-- ===== src/Grs/Create.antt =====
-- The numbers that `create_register` of kernel/grs/grs.c gives.
use archa_os.Base.{
  ℕ, ◌+◌, ◌<◌, ◌≤◌, ◌^◌, ◌≡◌, ◌≢◌, refl, Bool, true, false, ◌==◌, leb, if◌then◌else◌, ◌||◌, List,
  ◌⊎◌, inl, inr, ◌∙◌, sym, arith, Bool-cases, ne→==_false, ==_iff,
}
use archa_os.Fs.{same}
use archa_os.Fs.Siblings.{==_refl}
use archa_os.Grs.{
  Register, Registry, GrsReturn, grs_invalid, grs_reg_filled, grs_success, not_exists, no_register,
  create_register, init_registry, u64, max_registers,
}

-- The registers from 1 to the counter have their index as id, and no other is in use; there is no
-- register 0.
pub record IsNumbered (r : Registry) : Type 0 where
  used : (i : ℕ) → 0 < i → i ≤ r.ptr → i < 500 → (r.register i).id ≡ i
  unused : (i : ℕ) → (r.ptr < i) ⊎ ((500 ≤ i) ⊎ (i ≡ 0)) → r.register i ≡ no_register

filled-IsNumbered :
    (r : Registry) → IsNumbered r → 500 ≤ r.ptr + 1 → IsNumbered (record r { ptr = r.ptr + 1 })
filled-IsNumbered r n h = record {
  used = λ i some_i to_ptr below. n.used i some_i (omega arith) below;
  unused = λ i where_i. n.unused i (ground (arith, where_i));
}

abbrev stored : Registry → Register → Registry
stored r new = record r {
  ptr = r.ptr + 1;
  register = λ i. if i == (r.ptr + 1) then new else r.register i;
}

stored-IsNumbered :
    (r : Registry) (new : Register)
    → new.id ≡ r.ptr + 1
    → r.ptr + 1 < 500
    → IsNumbered r
    → IsNumbered (stored r new)
stored-IsNumbered r new id h n = record {
  used = λ i some_i to_ptr below. elim (Bool-cases (i == (r.ptr + 1))) [
    | inl e ↦ let here : i ≡ r.ptr + 1 = (==_iff i (r.ptr + 1)).0 e in rw e (id ∙ sym here)
    | inr e ↦ rw e (n.used i some_i (ground arith) below)
  ];
  unused = λ i where_i.
      let apart : (i == (r.ptr + 1)) ≡ false =
        ne→==_false i (r.ptr + 1) (ground (arith, where_i)) in
      rw apart (n.unused i (ground (arith, where_i)));
}

module _ (text : ℕ → List ℕ) (name value : ℕ) (r : Registry) where
  pub record Outcome (p : GrsReturn × Registry) : Type 0 where
    numbered : IsNumbered p.1
    table :
        ((p.0 ≡ grs_success)
          × ((p.1.ptr ≡ r.ptr + 1)
              × (p.1.register p.1.ptr ≡ record { name = name; id = p.1.ptr; value = value })))
        ⊎ ((p.0 ≢ grs_success) × ((i : ℕ) → p.1.register i ≡ r.register i))

  -- `create_register` keeps the registers numbered: those from 1 to the counter have their index as
  -- id, no other is in use, and register 0 never is. When it succeeds, the register behind the
  -- counter before has the name and the value, and otherwise no register changes. The condition is that the counter does not wrap.
  pub create_register-IsNumbered :
      IsNumbered r → r.ptr + 1 < 2 ^ 64 → Outcome (create_register text name value r)
  unfolding create_register
  create_register-IsNumbered n h =
      let small : u64 (r.ptr + 1) ≡ r.ptr + 1 = omega arith in
      rw small (
        cases (same (text name) not_exists) ((name == 0) || (value == 0))
          (Bool-cases (leb max_registers (r.ptr + 1))))
    where
      new : Register
      new = record { name = name; id = r.ptr + 1; value = value }

      cases :
          (b b' : Bool)
          → ((leb max_registers (r.ptr + 1) ≡ true) ⊎ (leb max_registers (r.ptr + 1) ≡ false))
          → let kept : GrsReturn × Registry = (grs_invalid, r) in
            let full : GrsReturn × Registry = (grs_reg_filled, record r { ptr = r.ptr + 1 }) in
            let made : GrsReturn × Registry = (grs_success, stored r new) in
            Outcome (
              if b
              then kept
              else if b'
              then kept
              else if leb max_registers (r.ptr + 1)
              then full
              else made)
      cases true b' c = record { numbered = n; table = inr (λ e. cc e, λ i. refl) }
      cases false true c = record { numbered = n; table = inr (λ e. cc e, λ i. refl) }
      cases false false (inl e) = rw e record {
        numbered = filled-IsNumbered r n (ground arith);
        table = inr (λ q. cc q, λ i. refl);
      }
      cases false false (inr e) = rw e record {
        numbered = stored-IsNumbered r new refl (ground arith) n;
        table = inl (refl, (refl, rw (==_refl (r.ptr + 1)) refl));
      }

pub init_registry-IsNumbered : IsNumbered init_registry
unfolding init_registry
init_registry-IsNumbered = record {
  used = λ i some_i to_ptr below. absurd (omega arith);
  unused = λ i where_i. refl;
}
