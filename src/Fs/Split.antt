-- ===== src/Fs/Split.antt =====
-- The parent and the last name of a path, as `create_file` of kernel/fs/fs.c takes it apart, and how a
-- walk along the path goes by them.
use archa_os.Base.{
  ℕ, ◌≡◌, refl, true, false, ◌==◌, if◌then◌else◌, List, [], ◌∷◌, ◌++◌, none, some, ◌⊎◌, inl, inr,
  ◌∙◌, ap, sym, Bool-cases, Option-cases,
}
use archa_os.Fs.{Fs, same, found, is_empty, parse_path}
use archa_os.Fs.Files.{split_last, ends_with_slash, parent_and_name}
use mathlib.Core.Option.{none-ne-some, some-injective}
use mathlib.Core.Path.{subst}
use mathlib.Core.Bool.{true≢false}
use archa_os.Fs.Found.{walk-append}
use archa_os.Fs.Paths.{walk, pieces, components, add, parse_path-walk, pieces-slash, pieces-name}

split_last-later :
    (c : ℕ) (path before behind : List ℕ)
    → split_last path ≡ some (before, behind)
    → split_last (c ∷ path) ≡ some (c ∷ before, behind)
unfolding split_last
split_last-later c path before behind e = rw (split_last, e) refl

split_last-slash :
    (c : ℕ) (path : List ℕ)
    → split_last path ≡ none
    → (c == b'/') ≡ true
    → split_last (c ∷ path) ≡ some ([], path)
unfolding split_last
split_last-slash c path e slash = rw (split_last, e, slash) refl

split_last-name :
    (c : ℕ) (path : List ℕ)
    → split_last path ≡ none
    → (c == b'/') ≡ false
    → split_last (c ∷ path) ≡ none
unfolding split_last
split_last-name c path e name = rw (split_last, e, name) refl

-- How the last slash of a longer path stands to that of the path.
data Step (c : ℕ) (path : List ℕ) : Type 0 where
  later :
      (before behind : List ℕ)
      → split_last path ≡ some (before, behind)
      → split_last (c ∷ path) ≡ some (c ∷ before, behind)
      → Step c path
  slash :
      split_last path ≡ none
      → (c == b'/') ≡ true
      → split_last (c ∷ path) ≡ some ([], path)
      → Step c path
  no_slash :
      split_last path ≡ none → (c == b'/') ≡ false → split_last (c ∷ path) ≡ none → Step c path

step : (c : ℕ) (path : List ℕ) → Step c path
step c path = elim (Option-cases (split_last path)) [
  | inr ((before, behind), e) ↦ later before behind e (split_last-later c path before behind e)
  | inl e ↦ elim (Bool-cases (c == b'/')) [
    | inl here ↦ slash e here (split_last-slash c path e here)
    | inr name ↦ no_slash e name (split_last-name c path e name)
  ]
]

-- A path without a slash is one name.
pieces-none : (path : List ℕ) → split_last path ≡ none → pieces path ≡ (path, [])
pieces-none [] h = unfold pieces in refl
pieces-none (c ∷ path) h = elim (step c path) [
  | later before behind e e' ↦ absurd (none-ne-some _ (sym h ∙ e'))
  | slash e here e' ↦ absurd (none-ne-some _ (sym h ∙ e'))
  | no_slash e name e' ↦ pieces-name c path name ∙ ap (λ p. (c ∷ p.0, p.1)) (pieces-none path e)
]

add-append :
    (name : List ℕ) (names more : List (List ℕ)) → add name (names ++ more) ≡ add name names ++ more
add-append [] names more = refl
add-append (c ∷ name) names more = refl

-- The names before a last slash, and the one behind it.
abbrev around : List ℕ × List ℕ → List ℕ × List (List ℕ)
around p = ((pieces p.0).0, (pieces p.0).1 ++ add p.1 [])

around-slash :
    (c : ℕ) (before behind : List ℕ)
    → (c == b'/') ≡ true
    → around (c ∷ before, behind) ≡ ([], components before ++ add behind [])
around-slash c before behind e = ap (λ p. (p.0, p.1 ++ add behind [])) (pieces-slash c before e)

around-name :
    (c : ℕ) (before behind : List ℕ)
    → (c == b'/') ≡ false
    → around (c ∷ before, behind) ≡ (c ∷ (around (before, behind)).0, (around (before, behind)).1)
around-name c before behind e = ap (λ p. (p.0, p.1 ++ add behind [])) (pieces-name c before e)

pieces-around :
    (path : List ℕ) (p : List ℕ × List ℕ) → split_last path ≡ some p → pieces path ≡ around p
pieces-around [] p h = absurd (unfold split_last in none-ne-some p h)
pieces-around (c ∷ path) p h = elim (step c path) [
  | later b n e e' ↦
      subst (λ p. pieces (c ∷ path) ≡ around p) (some-injective (c ∷ b, n) p (sym e' ∙ h))
        (longer b n (Bool-cases (c == b'/')) (pieces-around path (b, n) e))
  | slash e here e' ↦
      subst (λ p. pieces (c ∷ path) ≡ around p) (some-injective ([], path) p (sym e' ∙ h))
        (pieces-slash c path here
          ∙ (ap (λ p. ([], add p.0 p.1)) (pieces-none path e) ∙ (unfold pieces in refl)))
  | no_slash e name e' ↦ absurd (none-ne-some p (sym e' ∙ h))
]
  where
    longer :
        (b n : List ℕ)
        → ((c == b'/') ≡ true) ⊎ ((c == b'/') ≡ false)
        → pieces path ≡ around (b, n)
        → pieces (c ∷ path) ≡ around (c ∷ b, n)
    longer b n (inl here) e =
        pieces-slash c path here
        ∙ (ap (λ p. ([], add p.0 p.1)) e
            ∙ (ap (λ names. ([], names)) (add-append (pieces b).0 (pieces b).1 (add n []))
                ∙ sym (around-slash c b n here)))
    longer b n (inr name) e =
        pieces-name c path name ∙ (ap (λ p. (c ∷ p.0, p.1)) e ∙ sym (around-name c b n name))

-- The name behind the last slash is not empty when the path does not end with a slash.
is_empty-split_last :
    (path : List ℕ) (p : List ℕ × List ℕ)
    → split_last path ≡ some p
    → ends_with_slash path ≡ false
    → is_empty p.1 ≡ false
is_empty-split_last [] p h plain = absurd (unfold split_last in none-ne-some p h)
is_empty-split_last (c ∷ []) p h plain = elim (step c []) [
  | later b n e e' ↦ absurd (unfold split_last in none-ne-some (b, n) e)
  | slash e here e' ↦ absurd (true≢false (sym here ∙ (unfold ends_with_slash in plain)))
  | no_slash e name e' ↦ absurd (none-ne-some p (sym e' ∙ h))
]
is_empty-split_last (c ∷ d ∷ path) p h plain = elim (step c (d ∷ path)) [
  | later b n e e' ↦
      subst (λ p. is_empty p.1 ≡ false) (some-injective (c ∷ b, n) p (sym e' ∙ h))
        (is_empty-split_last (d ∷ path) (b, n) e (unfold ends_with_slash in plain))
  | slash e here e' ↦
      subst (λ p. is_empty p.1 ≡ false) (some-injective ([], d ∷ path) p (sym e' ∙ h)) refl
  | no_slash e name e' ↦ absurd (none-ne-some p (sym e' ∙ h))
]

parent_and_name-none :
    (path : List ℕ) → split_last path ≡ none → parent_and_name path ≡ (b'.' ∷ [], path)
unfolding parent_and_name
parent_and_name-none path e = rw (parent_and_name, e) refl

parent_and_name-some :
    (path : List ℕ) (p : List ℕ × List ℕ)
    → split_last path ≡ some p
    → parent_and_name path ≡ (if is_empty p.0 then b'/' ∷ [] else p.0, p.1)
unfolding parent_and_name
parent_and_name-some path p e = rw (parent_and_name, e) refl

one_name : (name : List ℕ) → is_empty name ≡ false → add name [] ≡ name ∷ []
one_name [] h = absurd (true≢false h)
one_name (c ∷ name) h = refl

components-parent :
    (before : List ℕ)
    → components (if is_empty before then b'/' ∷ [] else before) ≡ components before
components-parent [] = unfold pieces in refl
components-parent (c ∷ before) = refl

-- A walk along a path is one along the path of its parent and then to its last name.
walk-parent_and_name :
    {H : Type 0} (root fuel : ℕ) (s : Fs H) (path : List ℕ)
    → is_empty path ≡ false
    → ends_with_slash path ≡ false
    → walk fuel s root (components path)
      ≡ walk fuel s root (components (parent_and_name path).0 ++ ((parent_and_name path).1 ∷ []))
walk-parent_and_name root fuel s path full plain = elim (Option-cases (split_last path)) [
  | inl e ↦
      ap (λ p. walk fuel s root (add p.0 p.1)) (pieces-none path e)
      ∙ (ap (walk fuel s root) (one_name path full)
          ∙ (stays
              ∙ sym (
                  ap (λ q. walk fuel s root (components q.0 ++ (q.1 ∷ [])))
                    (parent_and_name-none path e))))
  | inr (p, e) ↦ ap (walk fuel s root) (
      ap (λ p. add p.0 p.1) (pieces-around path p e)
      ∙ (add-append (pieces p.0).0 (pieces p.0).1 (add p.1 [])
          ∙ (ap (λ names. components p.0 ++ names)
                (one_name p.1 (is_empty-split_last path p e plain))
              ∙ (ap (λ names. names ++ (p.1 ∷ [])) (sym (components-parent p.0))
                  ∙ sym (ap (λ q. components q.0 ++ (q.1 ∷ [])) (parent_and_name-some path p e))))))
]
  where
    stays : walk fuel s root (path ∷ []) ≡ walk fuel s root (components (b'.' ∷ []) ++ (path ∷ []))
    stays = unfold walk pieces same in refl

-- Where the path of the parent leads, the path leads on to its last name.
pub parse_path-parent :
    {H : Type 0} (root fuel : ℕ) (s : Fs H) (path : List ℕ) (parent : ℕ)
    → is_empty path ≡ false
    → ends_with_slash path ≡ false
    → parse_path root fuel s (some (parent_and_name path).0) ≡ some (found parent)
    → parse_path root fuel s (some path) ≡ walk fuel s parent ((parent_and_name path).1 ∷ [])
parse_path-parent root fuel s path parent full plain at =
    let to_parent = sym (parse_path-walk root fuel s (parent_and_name path).0) ∙ at in
    parse_path-walk root fuel s path
    ∙ (walk-parent_and_name root fuel s path full plain
        ∙ walk-append fuel s root (components (parent_and_name path).0)
            ((parent_and_name path).1 ∷ []) parent to_parent)
