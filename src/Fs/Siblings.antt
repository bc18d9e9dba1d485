-- ===== src/Fs/Siblings.antt =====
-- The children of a directory as a list, and how kernel/fs/fs.c searches and changes it.
use archa_os.Base.{
  ℕ, zero, suc, ◌<◌, ◌≡◌, ◌≢◌, refl, Bool, true, false, ◌==◌, if◌then◌else◌, ◌||◌, List, [], ◌∷◌,
  Option, some, ◌⊎◌, inl, inr, ◌∙◌, ap, sym, length, arith, Bool-cases, ne→==_false, ==_iff,
}
use archa_os.Fs.{
  File, Fs, same, find_from, find_child, link_child, Link, children_of, read_link, write_link,
  find_link, unlink_child, write,
}

-- From the pointer `p` on, the siblings are exactly the files of the list.
abbrev pub Siblings : (ℕ → File) → ℕ → List ℕ → Type 0
Siblings m p [] = p ≡ 0
Siblings m p (x ∷ xs) = (p ≡ x) × ((x ≢ 0) × Siblings m (m x).next xs)

-- The file is none of the list.
abbrev pub NotIn : ℕ → List ℕ → Type 0
NotIn x [] = Unit
NotIn x (y ∷ ys) = (y ≢ x) × NotIn x ys

-- No file twice.
abbrev pub Distinct : List ℕ → Type 0
Distinct [] = Unit
Distinct (x ∷ xs) = NotIn x xs × Distinct xs

-- The first file of a list with a name, 0 if there is none.
unfoldable pub first_named : (ℕ → List ℕ) → (ℕ → File) → List ℕ → List ℕ → ℕ
first_named text m [] name = 0
first_named text m (x ∷ xs) name =
    if same (text (m x).name) name then x else first_named text m xs name

pub ==_refl : (x : ℕ) → (x == x) ≡ true
==_refl x = (==_iff x x).1 refl

-- Files that change outside of a list, or keep their `next`, leave the list as it is.
pub Siblings-frame :
    (m m' : ℕ → File) (p : ℕ) (xs : List ℕ)
    → ((x : ℕ) → NotIn x xs ⊎ ((m' x).next ≡ (m x).next))
    → Siblings m p xs
    → Siblings m' p xs
Siblings-frame m m' p [] keeps s = s
Siblings-frame m m' p (x ∷ xs) keeps (e, (some_file, rest)) =
    let next_same : (m' x).next ≡ (m x).next = here (keeps x) in
    (e, (some_file, rw next_same (Siblings-frame m m' (m x).next xs (λ y. below y (keeps y)) rest)))
  where
    here : NotIn x (x ∷ xs) ⊎ ((m' x).next ≡ (m x).next) → (m' x).next ≡ (m x).next
    here (inl (ne, _)) = absurd (ne refl)
    here (inr e) = e

    below :
        (y : ℕ)
        → NotIn y (x ∷ xs) ⊎ ((m' y).next ≡ (m y).next)
        → NotIn y xs ⊎ ((m' y).next ≡ (m y).next)
    below y (inl (_, away)) = inl away
    below y (inr e) = inr e

module _ {H : Type 0} where
  find_from-first_named :
      (fuel : ℕ) (s : Fs H) (f : ℕ) (xs : List ℕ) (name : List ℕ)
      → Siblings s.file f xs
      → length xs < fuel
      → find_from fuel s f name ≡ some (first_named s.text s.file xs name)
  unfolding find_from first_named
  find_from-first_named zero s f xs name l h = absurd (omega arith)
  find_from-first_named (suc fuel) s f [] name l h = ground (arith, l)
  find_from-first_named (suc fuel) s f (x ∷ xs) name (e, (some_file, rest)) h =
      let there : (x == 0) ≡ false = ne→==_false x 0 some_file in
      let more = find_from-first_named fuel s (s.file x).next xs name rest (omega arith) in
      rw (e, there) (either (same (s.text (s.file x).name) name) more)
    where
      either :
          (b : Bool) {o : Option ℕ} {y : ℕ}
          → o ≡ some y
          → (if b then some x else o) ≡ some (if b then x else y)
      either true e = refl
      either false e = e

  -- On a directory with a list of children, and with fuel for each child and the end, `find_child`
  -- gives the first child with the name, or NULL if none has it.
  pub find_child-first_named :
      (fuel : ℕ) (s : Fs H) (dir : ℕ) (xs : List ℕ) (name : List ℕ)
      → Siblings s.file (s.file dir).children xs
      → length xs < fuel
      → find_child fuel s dir name ≡ some (first_named s.text s.file xs name)
  unfolding find_child
  find_child-first_named fuel s dir xs name l h =
      find_from-first_named fuel s (s.file dir).children xs name l h

  pub link_child-child :
      (dir child : ℕ) (s : Fs H)
      → child ≢ dir
      → (link_child dir child s).file child
        ≡ record (s.file child) { parent = dir; next = (s.file dir).children }
  unfolding link_child
  link_child-child dir child s h =
      let apart = ne→==_false child dir h in
      let apart' = ne→==_false dir child (λ e. h (sym e)) in
      simp (apart, apart', ==_refl child) refl

  pub link_child-dir :
      (dir child : ℕ) (s : Fs H)
      → child ≢ dir
      → (link_child dir child s).file dir ≡ record (s.file dir) { children = child }
  unfolding link_child
  link_child-dir dir child s h =
      let apart' = ne→==_false dir child (λ e. h (sym e)) in
      simp (apart', ==_refl child, ==_refl dir) refl

  pub link_child-other :
      (dir child x : ℕ) (s : Fs H)
      → x ≢ dir
      → x ≢ child
      → (link_child dir child s).file x ≡ s.file x
  unfolding link_child
  link_child-other dir child x s h h' =
      let not_dir = ne→==_false x dir h in
      let not_child = ne→==_false x child h' in simp (not_dir, not_child) refl

  -- A file that is not among the children of a directory, and is not the directory, becomes the
  -- first of them.
  pub link_child-Siblings :
      (dir child : ℕ) (s : Fs H) (xs : List ℕ)
      → child ≢ dir
      → child ≢ 0
      → NotIn child xs
      → Siblings s.file (s.file dir).children xs
      → Siblings
          (link_child dir child s).file
          ((link_child dir child s).file dir).children
          (child ∷ xs)
  link_child-Siblings dir child s xs h some_file new l =
      let first = ap (λ b. File.children b) (link_child-dir dir child s h) in
      let second = ap (λ b. File.next b) (link_child-child dir child s h) in
      (
        first,
        (
          some_file,
          rw second (
              Siblings-frame s.file (link_child dir child s).file (s.file dir).children xs keeps l),
        ),
      )
    where
      keeps : (x : ℕ) → NotIn x xs ⊎ (((link_child dir child s).file x).next ≡ (s.file x).next)
      keeps x = elim (Bool-cases (x == child)) [
        | inl e ↦ let same_file : x ≡ child = (==_iff x child).0 e in inl (rw same_file new)
        | inr ne ↦ inr (others x ne (Bool-cases (x == dir)))
      ]
        where
          others :
              (x : ℕ)
              → (x == child) ≡ false
              → ((x == dir) ≡ true) ⊎ ((x == dir) ≡ false)
              → ((link_child dir child s).file x).next ≡ (s.file x).next
          others x ne (inl e) =
              let here : x ≡ dir = (==_iff x dir).0 e in
              rw here (ap (λ b. File.next b) (link_child-dir dir child s h))
          others x ne (inr ne') =
              ap (λ b. File.next b) (link_child-other dir child x s (ground arith) (ground arith))

  abbrev pub unlinked : (s : Fs H) (link : Link) (target : ℕ) → Fs H
  unlinked s link target =
      let s₁ = write_link link (s.file target).next s in
      write target (record (s₁.file target) { next = 0 }) s₁

  pub find_link-stops :
      (fuel : ℕ) (s : Fs H) (target : ℕ) (link : Link)
      → read_link s link ≡ target
      → find_link (suc fuel) s target link ≡ some link
  unfolding find_link
  find_link-stops fuel s target link e =
      let here : (read_link s link == target) ≡ true = (==_iff _ _).1 e in
      rw here (or_true (read_link s link == 0) _ _)
    where
      or_true : (b : Bool) (o o' : Option Link) → (if b || true then o else o') ≡ o
      or_true true o o' = refl
      or_true false o o' = refl

  pub unlink_child-found :
      (fuel parent target : ℕ) (s : Fs H) (link : Link)
      → find_link fuel s target (children_of parent) ≡ some link
      → read_link s link ≡ target
      → target ≢ 0
      → unlink_child fuel parent target s ≡ some (1, unlinked s link target)
  unfolding unlink_child
  unlink_child-found fuel parent target s link e at some_file =
      let there : (read_link s link == 0) ≡ false = ne→==_false _ _ (λ z. some_file (sym at ∙ z)) in
      rw (unlink_child, e, there) refl

  -- `unlink_child` of a file that `link_child` has just made a child finds it, and the children are
  -- again those of before: every other file is as it was.
  pub unlink_child-link_child :
      (fuel dir child : ℕ) (s : Fs H)
      → child ≢ dir
      → child ≢ 0
      → (s' : Fs H) × ((unlink_child (suc fuel) dir child (link_child dir child s) ≡ some (1, s'))
          × ((x : ℕ) → x ≢ child → s'.file x ≡ s.file x))
  unlink_child-link_child fuel dir child s h some_file =
      let at : ((link_child dir child s).file dir).children ≡ child =
        ap (λ b. File.children b) (link_child-dir dir child s h) in
      (
        unlinked (link_child dir child s) (children_of dir) child,
        (
          unlink_child-found (suc fuel) dir child _ (children_of dir)
              (find_link-stops fuel _ child (children_of dir) at) at some_file,
          λ x ne. restored x ne (Bool-cases (x == dir)),
        ),
      )
    where
      restored :
          (x : ℕ)
          → x ≢ child
          → ((x == dir) ≡ true) ⊎ ((x == dir) ≡ false)
          → (unlinked (link_child dir child s) (children_of dir) child).file x ≡ s.file x
      restored x ne (inl e) =
          let here : x ≡ dir = (==_iff x dir).0 e in
          let apart = ne→==_false dir child (λ e. h (sym e)) in
          simp
            (here, apart, ==_refl dir, link_child-dir dir child s h, link_child-child dir child s h)
            refl
      restored x ne (inr e) =
          let apart = ne→==_false x child ne in
          simp (e, apart) (link_child-other dir child x s (ground arith) ne)
