-- ===== src/Fs/Create.antt =====
-- What `create_file` and `create_file_force` of kernel/fs/fs.c leave.
use archa_os.Base.{
  ℕ, suc, ◌≡◌, refl, Bool, true, false, ◌==◌, not, ◌&&◌, List, [], ◌∷◌, some, ◌∙◌, ap, length,
  arith,
}
use archa_os.Fs.{Fs, Allocator, success, found, skip_slashes, take_name, parse_path}
use archa_os.Fs.Files.{force_loop, create_file_force}
use archa_os.Fs.Paths.{parse_path-walk, skip_slashes-name, walk, pieces, components}

-- No byte of a name is a slash.
unfoldable pub is_name : List ℕ → Bool
is_name [] = true
is_name (c ∷ name) = not (c == b'/') && is_name name

take_name-is_name : (name : List ℕ) → is_name name ≡ true → take_name name ≡ (name, [])
unfolding take_name is_name
take_name-is_name [] h = refl
take_name-is_name (c ∷ name) h =
    let no_slash : (c == b'/') ≡ false = ground arith in
    let rest = take_name-is_name name (ground arith) in rw (no_slash, rest) refl

module _ {H : Type 0} (root : ℕ) (a : Allocator H) where
  force_loop-found :
      (rounds fuel c : ℕ) (path p : List ℕ) (b data_from size flags : ℕ) (s : Fs H)
      → skip_slashes (take_name (c ∷ path)).1 ≡ p
      → parse_path root fuel s (some p) ≡ some (found b)
      → force_loop root a (suc rounds) fuel (c ∷ path) data_from size flags s
        ≡ force_loop root a rounds fuel p data_from size flags s
  unfolding force_loop
  force_loop-found rounds fuel c path p b data_from size flags s e at =
      rw (force_loop, e, at) (ap (λ q. force_loop root a rounds fuel q data_from size flags s) e)

  -- `create_file_force` of a single name does nothing and reports success: what it looks up is the
  -- path behind the name, which is empty and leads to the root.
  pub create_file_force-is_name :
      (fuel : ℕ) (name : List ℕ) (data_from size flags : ℕ) (s : Fs H)
      → is_name name ≡ true
      → ((data_from == 0) && not (size == 0)) ≡ false
      → create_file_force root a fuel (some name) data_from size flags s ≡ some (success, s)
  unfolding create_file_force
  create_file_force-is_name fuel [] data_from size flags s named given =
      rw given (unfold force_loop skip_slashes in refl)
  create_file_force-is_name fuel (c ∷ name) data_from size flags s named given =
      let no_slash : (c == b'/') ≡ false = unfold is_name in ground (arith, named) in
      let start = skip_slashes-name c name no_slash in
      let taken = take_name-is_name (c ∷ name) named in
      let behind : skip_slashes (take_name (c ∷ name)).1 ≡ [] =
        ap (λ t. skip_slashes t.1) taken ∙ (unfold skip_slashes in refl) in
      let at_root : walk fuel s root (components []) ≡ some (found root) =
        unfold walk pieces in refl in
      rw (given, start)
        (force_loop-found (suc (length name)) fuel c name [] root data_from size flags s behind
            (parse_path-walk root fuel s [] ∙ at_root)
          ∙ (unfold force_loop in refl))
