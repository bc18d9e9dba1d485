-- ===== src/Fs/Paths.antt =====
-- Paths: `parse_path` of kernel/fs/fs.c walks along the names between the slashes.
use archa_os.Base.{
  ℕ, zero, suc, ◌≤◌, ◌<◌, ◌≡◌, refl, Bool, true, false, ◌==◌, if◌then◌else◌, not, bit_and, List, [],
  ◌∷◌, Option, some, inl, inr, ◌∙◌, ap, sym, fun_ext, length, arith, Bool-cases,
}
use archa_os.Fs.{
  Fs, same, Parsed, found, failed, not_a_dir, descend, skip_slashes, take_name, find_from,
  parse_loop, parse_path, is_directory,
}

-- A name in front of others, if it is not empty.
abbrev pub add : List ℕ → List (List ℕ) → List (List ℕ)
add [] names = names
add (c ∷ name) names = (c ∷ name) ∷ names

-- The bytes up to the first slash, and the names behind it that are not empty.
unfoldable pub pieces : List ℕ → List ℕ × List (List ℕ)
pieces [] = ([], [])
pieces (c ∷ path) =
    let (name, names) = pieces path in if c == b'/' then ([], add name names) else (c ∷ name, names)

-- The names between the slashes of a path that are not empty.
abbrev pub components : List ℕ → List (List ℕ)
components path = add (pieces path).0 (pieces path).1

-- From a file along names: `.` stays, `..` goes to the parent, and any other name to the child of a
-- directory.
unfoldable pub walk : {H : Type 0} → ℕ → Fs H → ℕ → List (List ℕ) → Option Parsed
walk fuel s current [] = some (found current)
walk fuel s current (name ∷ names) =
    let here = walk fuel s current names in
    let above = walk fuel s (s.file current).parent names in
    let below =
      descend (find_from fuel s (s.file current).children name)
        (λ child. walk fuel s child names) in
    if same name (b'.' ∷ [])
    then here
    else if same name (b'.' ∷ b'.' ∷ [])
    then above
    else if bit_and (s.file current).flags is_directory == 0
    then some (failed not_a_dir)
    else below

skip_slashes-slash :
    (c : ℕ) (path : List ℕ) → (c == b'/') ≡ true → skip_slashes (c ∷ path) ≡ skip_slashes path
unfolding skip_slashes
skip_slashes-slash c path e = rw e refl

pub skip_slashes-name :
    (c : ℕ) (path : List ℕ) → (c == b'/') ≡ false → skip_slashes (c ∷ path) ≡ c ∷ path
unfolding skip_slashes
skip_slashes-name c path e = rw e refl

pub pieces-slash :
    (c : ℕ) (path : List ℕ) → (c == b'/') ≡ true → pieces (c ∷ path) ≡ ([], components path)
unfolding pieces
pieces-slash c path e = rw e refl

pub pieces-name :
    (c : ℕ) (path : List ℕ)
    → (c == b'/') ≡ false
    → pieces (c ∷ path) ≡ (c ∷ (pieces path).0, (pieces path).1)
unfolding pieces
pieces-name c path e = rw e refl

take_name-slash :
    (c : ℕ) (path : List ℕ) → (c == b'/') ≡ true → take_name (c ∷ path) ≡ ([], c ∷ path)
unfolding take_name
take_name-slash c path e = rw e refl

take_name-first :
    (c : ℕ) (path : List ℕ)
    → (c == b'/') ≡ false
    → take_name (c ∷ path) ≡ (c ∷ (take_name path).0, (take_name path).1)
unfolding take_name
take_name-first c path e = rw e refl

-- A slash at the start does not count.
pub components-slash :
    (c : ℕ) (path : List ℕ) → (c == b'/') ≡ true → components (c ∷ path) ≡ components path
components-slash c path e = ap (λ p. add p.0 p.1) (pieces-slash c path e)

components-skip_slashes : (path : List ℕ) → components (skip_slashes path) ≡ components path
components-skip_slashes [] = unfold skip_slashes in refl
components-skip_slashes (c ∷ path) = elim (Bool-cases (c == b'/')) [
  | inl e ↦
      ap components (skip_slashes-slash c path e)
      ∙ (components-skip_slashes path ∙ sym (components-slash c path e))
  | inr e ↦ ap components (skip_slashes-name c path e)
]

pieces-take_name :
    (path : List ℕ) → pieces path ≡ ((take_name path).0, components (take_name path).1)
pieces-take_name [] = unfold take_name pieces in refl
pieces-take_name (c ∷ path) = elim (Bool-cases (c == b'/')) [
  | inl e ↦
      pieces-slash c path e
      ∙ (ap (λ names. ([], names)) (sym (components-slash c path e))
          ∙ sym (ap (λ t. (t.0, components t.1)) (take_name-slash c path e)))
  | inr e ↦
      pieces-name c path e
      ∙ (ap (λ p. (c ∷ p.0, p.1)) (pieces-take_name path)
          ∙ sym (ap (λ t. (t.0, components t.1)) (take_name-first c path e)))
]

-- The path does not start with a slash.
abbrev starts_with_name : List ℕ → Bool
starts_with_name [] = true
starts_with_name (c ∷ path) = not (c == b'/')

starts_with_name-skip_slashes : (path : List ℕ) → starts_with_name (skip_slashes path) ≡ true
unfolding skip_slashes
starts_with_name-skip_slashes [] = refl
starts_with_name-skip_slashes (c ∷ path) = elim (Bool-cases (c == b'/')) [
  | inl e ↦ rw e (starts_with_name-skip_slashes path)
  | inr e ↦ rw e (ap not e)
]

length-skip_slashes : (path : List ℕ) → length (skip_slashes path) ≤ length path
unfolding skip_slashes
length-skip_slashes [] = omega arith
length-skip_slashes (c ∷ path) = ground (arith, length-skip_slashes path)

length-take_name : (path : List ℕ) → length (take_name path).1 ≤ length path
unfolding take_name
length-take_name [] = omega arith
length-take_name (c ∷ path) = ground (arith, length-take_name path)

components-first :
    (c : ℕ) (path : List ℕ)
    → (c == b'/') ≡ false
    → components (c ∷ path)
      ≡ (c ∷ (take_name path).0) ∷ components (skip_slashes (take_name path).1)
components-first c path e =
    ap (λ p. add p.0 p.1) (pieces-take_name (c ∷ path))
    ∙ (ap (λ t. add t.0 (components t.1)) (take_name-first c path e)
        ∙ ap (λ names. (c ∷ (take_name path).0) ∷ names)
            (sym (components-skip_slashes (take_name path).1)))

module _ {H : Type 0} (root : ℕ) where
  -- One round, with the name that it takes.
  abbrev round : ℕ → Fs H → ℕ → List ℕ → (ℕ → Option Parsed) → Option Parsed
  round fuel s current name next =
      if same name (b'.' ∷ [])
      then next current
      else if same name (b'.' ∷ b'.' ∷ [])
      then next (s.file current).parent
      else if bit_and (s.file current).flags is_directory == 0
      then some (failed not_a_dir)
      else descend (find_from fuel s (s.file current).children name) next

  parse_loop-round :
      (rounds fuel : ℕ) (s : Fs H) (current c : ℕ) (path : List ℕ)
      → take_name (c ∷ path) ≡ (c ∷ (take_name path).0, (take_name path).1)
      → parse_loop root (suc rounds) fuel s current (c ∷ path)
        ≡ round fuel s current
            (c ∷ (take_name path).0)
            (λ x. parse_loop root rounds fuel s x (skip_slashes (take_name path).1))
  unfolding parse_loop
  parse_loop-round rounds fuel s current c path t =
      ap (λ t. round fuel s current t.0 (λ x. parse_loop root rounds fuel s x (skip_slashes t.1))) t

  walk-round :
      (rounds fuel : ℕ) (s : Fs H) (current : ℕ) (name left : List ℕ)
      → ((x : ℕ) → parse_loop root rounds fuel s x left ≡ walk fuel s x (components left))
      → round fuel s current name (λ x. parse_loop root rounds fuel s x left)
        ≡ walk fuel s current (name ∷ components left)
  unfolding walk
  walk-round rounds fuel s current name left next = ap (round fuel s current name) (fun_ext next)

  parse_loop-walk :
      (rounds fuel : ℕ) (s : Fs H) (current : ℕ) (path : List ℕ)
      → length path < rounds
      → starts_with_name path ≡ true
      → parse_loop root rounds fuel s current path ≡ walk fuel s current (components path)
  parse_loop-walk zero fuel s current path h first = absurd (omega arith)
  parse_loop-walk (suc rounds) fuel s current [] h first = unfold parse_loop walk pieces in refl
  parse_loop-walk (suc rounds) fuel s current (c ∷ path) h first =
      let no_slash : (c == b'/') ≡ false = ground arith in
      let t = take_name-first c path no_slash in
      let left = skip_slashes (take_name path).1 in
      let fewer : length left < rounds =
        (let a = length-skip_slashes (take_name path).1 in
          let b = length-take_name path in omega (arith, a, b)) in
      parse_loop-round rounds fuel s current c path t
      ∙ (walk-round rounds fuel s current (c ∷ (take_name path).0) left (λ x.
            parse_loop-walk rounds fuel s x left fewer
              (starts_with_name-skip_slashes (take_name path).1))
          ∙ ap (walk fuel s current) (sym (components-first c path no_slash)))

  -- `parse_path` gives what the walk along the names of the path gives: slashes at the start, at the
  -- end and in a row do not count.
  pub parse_path-walk :
      (fuel : ℕ) (s : Fs H) (path : List ℕ)
      → parse_path root fuel s (some path) ≡ walk fuel s root (components path)
  unfolding parse_path
  parse_path-walk fuel s path =
      parse_loop-walk (suc (length path)) fuel s root (skip_slashes path)
        (let a = length-skip_slashes path in omega (arith, a)) (starts_with_name-skip_slashes path)
      ∙ ap (walk fuel s root) (components-skip_slashes path)
