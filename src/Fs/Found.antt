-- ===== src/Fs/Found.antt =====
-- Walks of `parse_path` of kernel/fs/fs.c in two states: what is found in one is found in the other.
use archa_os.Base.{
  ℕ, zero, suc, ◌≡◌, refl, Bool, true, false, ◌==◌, if◌then◌else◌, bit_and, List, [], ◌∷◌, ◌++◌,
  Option, none, some, ◌⊎◌, inl, inr, ◌∙◌, ap, sym, arith,
}
use archa_os.Fs.{
  Fs, same, Parsed, found, failed, not_found, not_a_dir, descend, find_from, is_directory,
}
use mathlib.Core.Option.{none-ne-some, some-injective}
use archa_os.Fs.Paths.{walk}

pub same_refl : (t : List ℕ) → same t t ≡ true
unfolding same
same_refl [] = refl
same_refl (c ∷ t) = ground (arith, same_refl t)

pub same→≡ : (t u : List ℕ) → same t u ≡ true → t ≡ u
unfolding same
same→≡ [] [] h = refl
same→≡ [] (d ∷ u) h = absurd (ground (arith, h))
same→≡ (c ∷ t) [] h = absurd (ground (arith, h))
same→≡ (c ∷ t) (d ∷ u) h =
    let first : c ≡ d = ground arith in
    let rest = same→≡ t u (ground arith) in rw (first, rest) refl

found-injective : (x y : ℕ) → found x ≡ found y → x ≡ y
found-injective x y e = ap file_of e
  where
    file_of : Parsed → ℕ
    file_of (found f) = f
    file_of (failed r) = 0

-- A step of a walk that comes to a file, and what the step in another walk comes to then.
branches :
    (dot dots plain : Bool) {here here' above above' below below' r : Option Parsed} {d : ℕ}
    → (here ≡ some (found d) → here' ≡ r)
    → (above ≡ some (found d) → above' ≡ r)
    → (below ≡ some (found d) → below' ≡ r)
    → (if dot
        then here
        else if dots
        then above
        else if plain
        then some (failed not_a_dir)
        else below)
      ≡ some (found d)
    → (if dot
        then here'
        else if dots
        then above'
        else if plain
        then some (failed not_a_dir)
        else below')
      ≡ r
branches true dots plain h a b e = h e
branches false true plain h a b e = a e
branches false false true h a b e =
    absurd (let e' : failed not_a_dir ≡ found _ = some-injective _ _ e in cc)
branches false false false h a b e = b e

descend_kept :
    (o o' : Option ℕ) (f f' : ℕ → Option Parsed) (d : ℕ) (r : Option Parsed)
    → ((y : ℕ) → o ≡ some (suc y) → o' ≡ some (suc y))
    → ((y : ℕ) → o ≡ some (suc y) → f (suc y) ≡ some (found d) → f' (suc y) ≡ r)
    → descend o f ≡ some (found d)
    → descend o' f' ≡ r
descend_kept none o' f f' d r same_child same_rest e = absurd (none-ne-some (found d) e)
descend_kept (some zero) o' f f' d r same_child same_rest e =
    absurd (let e' : failed not_found ≡ found d = some-injective _ _ e in cc)
descend_kept (some (suc y)) o' f f' d r same_child same_rest e =
    ap (λ o. descend o f') (same_child y refl) ∙ same_rest y refl e

-- A walk along names, and on along others.
pub walk-append :
    {H : Type 0} (fuel : ℕ) (s : Fs H) (x : ℕ) (names more : List (List ℕ)) (d : ℕ)
    → walk fuel s x names ≡ some (found d)
    → walk fuel s x (names ++ more) ≡ walk fuel s d more
unfolding walk
walk-append fuel s x [] more d e =
    ap (λ y. walk fuel s y more) (found-injective x d (some-injective _ _ e))
walk-append fuel s x (n ∷ names) more d e =
    branches (same n (b'.' ∷ [])) (same n (b'.' ∷ b'.' ∷ []))
      (bit_and (s.file x).flags is_directory == 0) (walk-append fuel s x names more d)
      (walk-append fuel s (s.file x).parent names more d)
      (descend_kept (find_from fuel s (s.file x).children n)
        (find_from fuel s (s.file x).children n) (λ y. walk fuel s y names)
        (λ y. walk fuel s y (names ++ more)) d (walk fuel s d more) (λ y e. e)
        (λ y e. walk-append fuel s (suc y) names more d))
      e

module _ (live : ℕ → Bool) where
  -- NULL, or a file that is there.
  abbrev pub Reached : ℕ → Type 0
  Reached p = (p ≡ 0) ⊎ (live p ≡ true)

module _ (live : ℕ → Bool) {H : Type 0} where
  -- The pointers of the files that are there lead to such files.
  pub record IsClosed (s : Fs H) : Type 0 where
    pub children : (x : ℕ) → live x ≡ true → Reached live (s.file x).children
    pub next : (x : ℕ) → live x ≡ true → Reached live (s.file x).next
    pub parent : (x : ℕ) → live x ≡ true → live (s.file x).parent ≡ true

  -- What a search among siblings reads is the same.
  pub record SameSiblings (s s' : Fs H) : Type 0 where
    pub next : (x : ℕ) → live x ≡ true → (s'.file x).next ≡ (s.file x).next
    pub name : (x : ℕ) → live x ≡ true → s'.text (s'.file x).name ≡ s.text (s.file x).name

  pub find_from_same :
      (fuel : ℕ) (s s' : Fs H) (f : ℕ) (name : List ℕ)
      → IsClosed s
      → SameSiblings s s'
      → Reached live f
      → find_from fuel s' f name ≡ find_from fuel s f name
  unfolding find_from
  find_from_same zero s s' f name c e r = refl
  find_from_same (suc fuel) s s' f name c e (inl null) = rw null refl
  find_from_same (suc fuel) s s' f name c e (inr there) =
      let rest = find_from_same fuel s s' (s.file f).next name c e (c.next f there) in
      rw (e.next f there, e.name f there, rest) refl

  pub find_from-Reached :
      (fuel : ℕ) (s : Fs H) (f : ℕ) (name : List ℕ) (x : ℕ)
      → IsClosed s
      → Reached live f
      → find_from fuel s f name ≡ some x
      → Reached live x
  unfolding find_from
  find_from-Reached zero s f name x c r e = absurd (none-ne-some x e)
  find_from-Reached (suc fuel) s f name x c (inl null) e =
      let ends : find_from (suc fuel) s f name ≡ some 0 = rw null refl in
      inl (sym (some-injective 0 x (sym ends ∙ e)))
  find_from-Reached (suc fuel) s f name x c (inr there) e =
      pick (f == 0) (same (s.text (s.file f).name) name) (find_from fuel s (s.file f).next name) e
        (find_from-Reached fuel s (s.file f).next name x c (c.next f there))
    where
      pick :
          (b d : Bool) (rest : Option ℕ)
          → (if b then some 0 else if d then some f else rest) ≡ some x
          → (rest ≡ some x → Reached live x)
          → Reached live x
      pick true d rest e after = inl (sym (some-injective 0 x e))
      pick false true rest e after = inr (rw (sym (some-injective f x e)) there)
      pick false false rest e after = after e

  -- More fuel does not change what a search finds.
  pub find_from-more :
      (fuel : ℕ) (s : Fs H) (f : ℕ) (name : List ℕ) (x : ℕ)
      → find_from fuel s f name ≡ some x
      → find_from (suc fuel) s f name ≡ some x
  unfolding find_from
  find_from-more zero s f name x e = absurd (none-ne-some x e)
  find_from-more (suc fuel) s f name x e =
      pick (f == 0) (same (s.text (s.file f).name) name) (find_from fuel s (s.file f).next name)
        (find_from (suc fuel) s (s.file f).next name) e
        (find_from-more fuel s (s.file f).next name x)
    where
      pick :
          (b d : Bool) (rest rest' : Option ℕ)
          → (if b then some 0 else if d then some f else rest) ≡ some x
          → (rest ≡ some x → rest' ≡ some x)
          → (if b then some 0 else if d then some f else rest') ≡ some x
      pick true d rest rest' e after = e
      pick false true rest rest' e after = e
      pick false false rest rest' e after = after e

  -- A walk that finds a file finds it in another state, if each search of the walk does.
  pub walk_along :
      (fuel fuel' : ℕ) (s s' : Fs H)
      → IsClosed s
      → ((x : ℕ) → live x ≡ true → (s'.file x).parent ≡ (s.file x).parent)
      → ((x : ℕ) → live x ≡ true → (s'.file x).flags ≡ (s.file x).flags)
      → ((x : ℕ) (name : List ℕ) (d : ℕ)
          → live x ≡ true
          → find_from fuel s (s.file x).children name ≡ some (suc d)
          → find_from fuel' s' (s'.file x).children name ≡ some (suc d))
      → (x : ℕ) (names : List (List ℕ)) (d : ℕ) → live x ≡ true
      → walk fuel s x names ≡ some (found d)
      → walk fuel' s' x names ≡ some (found d)
  unfolding walk
  walk_along fuel fuel' s s' c up flags searches x [] d at e = e
  walk_along fuel fuel' s s' c up flags searches x (n ∷ names) d at e =
      let further : (y : ℕ)
          → live y ≡ true
          → walk fuel s y names ≡ some (found d)
          → walk fuel' s' y names ≡ some (found d) =
        λ y there. walk_along fuel fuel' s s' c up flags searches y names d there in
      let above : walk fuel s (s.file x).parent names ≡ some (found d)
          → walk fuel' s' (s'.file x).parent names ≡ some (found d) =
        λ e'.
          ap (λ y. walk fuel' s' y names) (up x at)
          ∙ further (s.file x).parent (c.parent x at) e' in
      let same_flags : (bit_and (s'.file x).flags is_directory == 0)
          ≡ (bit_and (s.file x).flags is_directory == 0) =
        ap (λ k. bit_and k is_directory == 0) (flags x at) in
      rw same_flags (
        branches (same n (b'.' ∷ [])) (same n (b'.' ∷ b'.' ∷ []))
          (bit_and (s.file x).flags is_directory == 0) (further x at) above
          (descend_kept (find_from fuel s (s.file x).children n)
            (find_from fuel' s' (s'.file x).children n) (λ y. walk fuel s y names)
            (λ y. walk fuel' s' y names) d (some (found d)) (λ y. searches x n y at)
            (λ y there. further (suc y) (
              child_live y (
                find_from-Reached fuel s (s.file x).children n (suc y) c (c.children x at) there))))
          e)
    where
      child_live : (y : ℕ) → Reached live (suc y) → live (suc y) ≡ true
      child_live y (inl null) = absurd (omega arith)
      child_live y (inr there) = there
