-- ===== src/Fs/Unlink.antt =====
-- What `unlink_child` of kernel/fs/fs.c does to the children of a directory.
use archa_os.Base.{
  ℕ, zero, suc, ◌<◌, ◌≡◌, ◌≢◌, refl, true, false, ◌==◌, List, [], ◌∷◌, ◌++◌, some, ◌⊎◌, inl, inr,
  ◌∙◌, ap, sym, length, arith, Bool-cases, ne→==_false, ==_iff,
}
use mathlib.Core.Path.{subst}
use archa_os.Fs.{File, Fs, Link, children_of, next_of, read_link, find_link, unlink_child}
use archa_os.Fs.Siblings.{
  Siblings, NotIn, Distinct, Siblings-frame, find_link-stops, unlink_child-found, unlinked, ==_refl,
}

-- The link to the file behind the files of a list, which starts at a link.
abbrev last_link : Link → List ℕ → Link
last_link link [] = link
last_link link (y ∷ ys) = last_link (next_of y) ys

module _ {H : Type 0} where
  read_link-last_link :
      (s : Fs H) (target : ℕ) (link : Link) (ys zs : List ℕ)
      → Siblings s.file (read_link s link) (ys ++ (target ∷ zs))
      → read_link s (last_link link ys) ≡ target
  read_link-last_link s target link [] zs l = l.0
  read_link-last_link s target link (y ∷ ys) zs (e, (some_file, rest)) =
      read_link-last_link s target (next_of y) ys zs rest

  find_link-goes :
      (fuel : ℕ) (s : Fs H) (target : ℕ) (link : Link)
      → (read_link s link == 0) ≡ false
      → (read_link s link == target) ≡ false
      → find_link (suc fuel) s target link ≡ find_link fuel s target (next_of (read_link s link))
  unfolding find_link
  find_link-goes fuel s target link here other = rw (here, other) refl

  find_link-last_link :
      (fuel : ℕ) (s : Fs H) (target : ℕ) (link : Link) (ys zs : List ℕ)
      → Siblings s.file (read_link s link) (ys ++ (target ∷ zs))
      → NotIn target ys
      → length ys < fuel
      → find_link fuel s target link ≡ some (last_link link ys)
  find_link-last_link zero s target link ys zs l away h = absurd (omega arith)
  find_link-last_link (suc fuel) s target link [] zs l away h =
      find_link-stops fuel s target link l.0
  find_link-last_link (suc fuel) s target link (y ∷ ys) zs (e, (some_file, rest)) (ne, away) h =
      let here : (read_link s link == 0) ≡ false = ne→==_false _ _ (λ z. some_file (sym e ∙ z)) in
      let other : (read_link s link == target) ≡ false = ne→==_false _ _ (λ z. ne (sym e ∙ z)) in
      let chain : Siblings s.file (read_link s (next_of (read_link s link))) (ys ++ (target ∷ zs)) =
        rw e rest in
      find_link-goes fuel s target link here other
      ∙ (find_link-last_link fuel s target (next_of (read_link s link)) ys zs chain away
            (omega arith)
          ∙ ap (λ f. some (last_link (next_of f) ys)) e)

-- The last file of a list with a first one.
abbrev last : ℕ → List ℕ → ℕ
last y [] = y
last y (x ∷ xs) = last x xs

NotIn-middle : (y target : ℕ) (ys zs : List ℕ) → NotIn y (ys ++ (target ∷ zs)) → target ≢ y
NotIn-middle y target [] zs away = away.0
NotIn-middle y target (x ∷ ys) zs away = NotIn-middle y target ys zs away.1

NotIn-last : (y x target : ℕ) (ys zs : List ℕ) → NotIn y (x ∷ ys ++ (target ∷ zs)) → last x ys ≢ y
NotIn-last y x target [] zs away = away.0
NotIn-last y x target (x' ∷ ys) zs away = NotIn-last y x' target ys zs away.1

Distinct-front : (target : ℕ) (ys zs : List ℕ) → Distinct (ys ++ (target ∷ zs)) → NotIn target ys
Distinct-front target [] zs d = tt
Distinct-front target (y ∷ ys) zs (away, d) =
    (λ e. NotIn-middle y target ys zs away (sym e), Distinct-front target ys zs d)

last-NotIn : (target y : ℕ) (ys : List ℕ) → NotIn target (y ∷ ys) → last y ys ≢ target
last-NotIn target y [] away = away.0
last-NotIn target y (x ∷ ys) away = last-NotIn target x ys away.1

-- When the last file in front of `target` leads on to the file behind it, and no file but these two
-- has another `next`, then the list goes on without `target`.
bypass :
    (m m' : ℕ → File) (p target y : ℕ) (ys zs : List ℕ)
    → ((x : ℕ) → x ≢ last y ys → x ≢ target → (m' x).next ≡ (m x).next)
    → (m' (last y ys)).next ≡ (m target).next
    → Distinct (y ∷ ys ++ (target ∷ zs))
    → Siblings m p (y ∷ ys ++ (target ∷ zs))
    → Siblings m' p (y ∷ ys ++ zs)
bypass m m' p target y [] zs keeps leads (away, (away', d)) (e, (some_file, (e', (_, rest)))) =
    (e, (some_file, rw leads (Siblings-frame m m' (m target).next zs kept rest)))
  where
    kept : (x : ℕ) → NotIn x zs ⊎ ((m' x).next ≡ (m x).next)
    kept x = elim (Bool-cases (x == y)) [
      | inl q ↦ let here : x ≡ y = (==_iff x y).0 q in inl (rw here (away.1))
      | inr q ↦ elim (Bool-cases (x == target)) [
        | inl r ↦ let here : x ≡ target = (==_iff x target).0 r in inl (rw here away')
        | inr r ↦ inr (keeps x (ground arith) (ground arith))
      ]
    ]
bypass m m' p target y (x ∷ ys) zs keeps leads (away, d) (e, (some_file, rest)) =
    let same_next : (m' y).next ≡ (m y).next =
      keeps y (λ q. NotIn-last y x target ys zs away (sym q))
        (λ q. NotIn-middle y target (x ∷ ys) zs away (sym q)) in
    (e, (some_file, rw same_next (bypass m m' (m y).next target x ys zs keeps leads d rest)))

last_link-last : (y : ℕ) (ys : List ℕ) → last_link (next_of y) ys ≡ next_of (last y ys)
last_link-last y [] = refl
last_link-last y (x ∷ ys) = last_link-last x ys

module _ {H : Type 0} (s : Fs H) (target : ℕ) where
  abbrev after : Link → ℕ → File
  after link = (unlinked s link target).file

  after-next : (w x : ℕ) → x ≢ w → x ≢ target → (after (next_of w) x).next ≡ (s.file x).next
  after-next w x ne ne' =
      let apart = ne→==_false x w ne in
      let apart' = ne→==_false x target ne' in simp (apart, apart') refl

  after-leads : (w : ℕ) → w ≢ target → (after (next_of w) w).next ≡ (s.file target).next
  after-leads w ne = let apart = ne→==_false w target ne in simp (apart, ==_refl w) refl

  after-children : (w x : ℕ) → (after (next_of w) x).children ≡ (s.file x).children
  after-children w x = elim (Bool-cases (x == target)) [
    | inl e ↦
        let here : x ≡ target = (==_iff x target).0 e in
        rw here (at_target (Bool-cases (target == w)))
    | inr e ↦ elsewhere e (Bool-cases (x == w))
  ]
    where
      at_target :
          ((target == w) ≡ true) ⊎ ((target == w) ≡ false)
          → (after (next_of w) target).children ≡ (s.file target).children
      at_target (inl e) =
          let here : target ≡ w = (==_iff target w).0 e in simp (==_refl target, sym here) refl
      at_target (inr e) = simp (==_refl target, e) refl

      elsewhere :
          (x == target) ≡ false
          → ((x == w) ≡ true) ⊎ ((x == w) ≡ false)
          → (after (next_of w) x).children ≡ (s.file x).children
      elsewhere e (inl e') =
          let here : x ≡ w = (==_iff x w).0 e' in
          let apart : (w == target) ≡ false = rw (sym here) e in
          rw here (simp (apart, ==_refl w) refl)
      elsewhere e (inr e') = simp (e, e') refl

  first-children :
      (parent : ℕ) → (after (children_of parent) parent).children ≡ (s.file target).next
  first-children parent = elim (Bool-cases (parent == target)) [
    | inl e ↦
        let here : parent ≡ target = (==_iff parent target).0 e in simp (here, ==_refl target) refl
    | inr e ↦ simp (e, ==_refl parent) refl
  ]

  first-next : (parent x : ℕ) → x ≢ target → (after (children_of parent) x).next ≡ (s.file x).next
  first-next parent x ne =
      let apart = ne→==_false x target ne in
      elim (Bool-cases (x == parent)) [
        | inl e ↦
            let here : x ≡ parent = (==_iff x parent).0 e in
            let apart' : (parent == target) ≡ false = rw (sym here) apart in
            rw here (simp (apart', ==_refl parent) refl)
        | inr e ↦ simp (apart, e) refl
      ]

module _ {H : Type 0} where
  -- `unlink_child` of a child, with fuel for the children in front of it and one round more,
  -- returns 1, takes just that child out of the list of children, the others in their order, and
  -- leaves no sibling behind the file that it took out.
  pub unlink_child-Siblings :
      (fuel parent target : ℕ) (s : Fs H) (ys zs : List ℕ)
      → Siblings s.file (s.file parent).children (ys ++ (target ∷ zs))
      → Distinct (ys ++ (target ∷ zs))
      → target ≢ 0
      → length ys < fuel
      → (s' : Fs H) × ((unlink_child fuel parent target s ≡ some (1, s'))
          × (Siblings s'.file (s'.file parent).children (ys ++ zs) × ((s'.file target).next ≡ 0)))
  unlink_child-Siblings fuel parent target s ys zs l d some_file h = (
    unlinked s (last_link (children_of parent) ys) target,
    (
      unlink_child-found fuel parent target s (last_link (children_of parent) ys)
          (find_link-last_link fuel s target (children_of parent) ys zs l
            (Distinct-front target ys zs d) h)
          (read_link-last_link s target (children_of parent) ys zs l) some_file,
      (chain ys l d, simp (==_refl target) refl),
    ),
  )
    where
      kept :
          (x : ℕ)
          → NotIn target zs
          → NotIn x zs ⊎ ((after s target (children_of parent) x).next ≡ (s.file x).next)
      kept x away = elim (Bool-cases (x == target)) [
        | inl e ↦ let here : x ≡ target = (==_iff x target).0 e in inl (rw here away)
        | inr e ↦ inr (first-next s target parent x (ground arith))
      ]

      chain :
          (ys : List ℕ)
          → Siblings s.file (s.file parent).children (ys ++ (target ∷ zs))
          → Distinct (ys ++ (target ∷ zs))
          → Siblings
              (after s target (last_link (children_of parent) ys))
              (after s target (last_link (children_of parent) ys) parent).children
              (ys ++ zs)
      chain [] (e, (_, rest)) (away, d) = rw (first-children s target parent) (
          Siblings-frame s.file (after s target (children_of parent)) (s.file target).next zs
            (λ x. kept x away) rest)
      chain (y ∷ ys) l d =
          let w = last y ys in
          let not_target = last-NotIn target y ys (Distinct-front target (y ∷ ys) zs d) in
          let here : Siblings (after s target (next_of w)) (s.file parent).children (y ∷ ys ++ zs) =
            bypass s.file (after s target (next_of w)) (s.file parent).children target y ys zs
              (λ x. after-next s target w x) (after-leads s target w not_target) d l in
          subst
            (λ link.
              Siblings (after s target link) (after s target link parent).children (y ∷ ys ++ zs))
            (sym (last_link-last y ys))
            (subst (λ p. Siblings (after s target (next_of w)) p (y ∷ ys ++ zs))
              (sym (after-children s target w parent)) here)
