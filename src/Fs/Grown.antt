-- ===== src/Fs/Grown.antt =====
-- What `parse_path` of kernel/fs/fs.c finds, it still finds when a directory has a new file.
use archa_os.Base.{
  ℕ, zero, suc, ◌≡◌, ◌≢◌, refl, Bool, true, false, ◌==◌, if◌then◌else◌, bit_and, List, [], ◌∷◌,
  Option, some, inl, inr, ◌∙◌, ap, sym, arith, Bool-cases, ne→==_false, ==_iff,
}
use archa_os.Fs.{Fs, same, found, descend, find_from, is_directory, is_dots}
use mathlib.Core.Option.{some-injective}
use archa_os.Fs.Paths.{walk}
use archa_os.Fs.Found.{
  same_refl, same→≡, IsClosed, SameSiblings, find_from_same, find_from-more, walk_along,
}

module _ (live : ℕ → Bool) {H : Type 0} where
  -- A file is new in a directory: `s'` is `s` with the file in front of the children of `parent`.
  pub record Grown (s s' : Fs H) (parent file : ℕ) (name : List ℕ) : Type 0 where
    pub siblings : SameSiblings live s s'
    pub children : (x : ℕ) → live x ≡ true → x ≢ parent → (s'.file x).children ≡ (s.file x).children
    pub up : (x : ℕ) → live x ≡ true → (s'.file x).parent ≡ (s.file x).parent
    pub flags : (x : ℕ) → live x ≡ true → (s'.file x).flags ≡ (s.file x).flags
    pub first : (s'.file parent).children ≡ file
    pub next : (s'.file file).next ≡ (s.file parent).children
    pub named : s'.text (s'.file file).name ≡ name
    pub fresh : live file ≡ false
    pub nonzero : file ≢ 0

  module _ (s s' : Fs H) (parent file : ℕ) (name : List ℕ) (c : IsClosed live s)
      (g : Grown s s' parent file name) (is_live : live parent ≡ true) where
    -- The new file is found under its name.
    find_from_new : (fuel : ℕ) → find_from (suc fuel) s' (s'.file parent).children name ≡ some file
    unfolding find_from
    find_from_new fuel =
        let there : (file == 0) ≡ false = ne→==_false file 0 g.nonzero in
        let named : same (s'.text (s'.file file).name) name ≡ true =
          ap (λ t. same t name) g.named ∙ same_refl name in
        rw (g.first, there, named) refl

    in_parent :
        (fuel d : ℕ) (other : List ℕ)
        → find_from fuel s (s.file parent).children name ≡ some 0
        → find_from fuel s (s.file parent).children other ≡ some (suc d)
        → find_from (suc fuel) s' (s'.file parent).children other ≡ some (suc d)
    unfolding find_from
    in_parent fuel d other none_before e =
        let there : (file == 0) ≡ false = ne→==_false file 0 g.nonzero in
        let named : same (s'.text (s'.file file).name) other ≡ same name other =
          ap (λ t. same t other) g.named in
        let rest : find_from fuel s' (s'.file file).next other ≡ some (suc d) =
          ap (λ f. find_from fuel s' f other) g.next
          ∙ (find_from_same live fuel s s' (s.file parent).children other c g.siblings
                (c.children parent is_live)
              ∙ e) in
        rw (g.first, there, named) (pick (same name other) refl rest)
      where
        pick :
            (b : Bool)
            → same name other ≡ b
            → {o : Option ℕ} → o ≡ some (suc d)
            → (if b then some file else o) ≡ some (suc d)
        pick true h rest = absurd (other_name h)
          where
            other_name : same name other ≡ true → ⊥
            other_name h =
                let found : 0 ≡ suc d = some-injective 0 (suc d) (
                  sym none_before
                  ∙ (ap (find_from fuel s (s.file parent).children) (same→≡ name other h) ∙ e)) in
                omega arith
        pick false h rest = rest

    -- What another search in a directory finds, it still finds.
    find_from_kept :
        (fuel x d : ℕ) (other : List ℕ)
        → live x ≡ true
        → find_from fuel s (s.file parent).children name ≡ some 0
        → find_from fuel s (s.file x).children other ≡ some (suc d)
        → find_from (suc fuel) s' (s'.file x).children other ≡ some (suc d)
    find_from_kept fuel x d other at none_before e = elim (Bool-cases (x == parent)) [
      | inl here ↦
          let is_parent : x ≡ parent = (==_iff x parent).0 here in
          ap (λ y. find_from (suc fuel) s' (s'.file y).children other) is_parent
          ∙ in_parent fuel d other none_before
              (sym (ap (λ y. find_from fuel s (s.file y).children other) is_parent) ∙ e)
      | inr away ↦
          ap (λ f. find_from (suc fuel) s' f other) (g.children x at (ground (arith, away)))
          ∙ (find_from_same live (suc fuel) s s' (s.file x).children other c g.siblings
                (c.children x at)
              ∙ find_from-more live fuel s (s.file x).children other (suc d) e)
    ]

    pub walk_kept :
        (fuel x : ℕ) (names : List (List ℕ)) (d : ℕ)
        → live x ≡ true
        → find_from fuel s (s.file parent).children name ≡ some 0
        → walk fuel s x names ≡ some (found d)
        → walk (suc fuel) s' x names ≡ some (found d)
    walk_kept fuel x names d at none_before e =
        walk_along live fuel (suc fuel) s s' c g.up g.flags
          (λ y n z there. find_from_kept fuel y z n there none_before) x names d at e

    -- What a walk in `s` finds is found in `s'`, and under its name there is now the new file.
    pub walk-new :
        (fuel : ℕ)
        → (bit_and (s.file parent).flags is_directory == 0) ≡ false
        → is_dots name ≡ false
        → walk (suc fuel) s' parent (name ∷ []) ≡ some (found file)
    unfolding walk
    walk-new fuel dir plain =
        let no_dot : same name (b'.' ∷ []) ≡ false = ground (arith, plain) in
        let no_dots : same name (b'.' ∷ b'.' ∷ []) ≡ false = ground (arith, plain) in
        let still_dir : (bit_and (s'.file parent).flags is_directory == 0) ≡ false =
          ap (λ k. bit_and k is_directory == 0) (g.flags parent is_live) ∙ dir in
        rw (no_dot, no_dots, still_dir, find_from_new fuel) (positive file g.nonzero)
      where
        positive : (f : ℕ) → f ≢ 0 → descend (some f) (λ child. some (found child)) ≡ some (found f)
        positive zero ne = absurd (ne refl)
        positive (suc f) ne = refl
