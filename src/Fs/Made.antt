-- ===== src/Fs/Made.antt =====
-- A file that `create_file` of kernel/fs/fs.c makes is found under its path.
use archa_os.Base.{
  ◌%◌, ◌^◌, ℕ, ◌+◌, ◌≡◌, ◌≢◌, refl, Bool, true, false, ◌==◌, if◌then◌else◌, not, ◌&&◌, ◌||◌,
  bit_and, List, some, ◌⊎◌, inl, inr, ◌∙◌, ap, sym, length, arith, Bool-cases, ne→==_false, ==_iff,
}
use archa_os.Fs.{
  File, Fs, Allocator, success, found, find_child, is_directory, is_empty, is_dots, parse_path,
  link_child, write,
}
use archa_os.Fs.Files.{
  ends_with_slash, parent_and_name, parent_path_size, place, create_in, create_named, create_file,
  file_size, zeroed,
}
use archa_os.Strings.{memcpy}
use mathlib.Core.Bool.{true≢false}
use archa_os.Fs.Siblings.{link_child-child, link_child-dir, link_child-other, ==_refl}
use archa_os.Fs.Grown.{Grown}

module _ {H : Type 0} (root : ℕ) (a : Allocator H) (live : ℕ → Bool) where
  -- `place` of a file that is not there yet, in a state that differs from `s` in that file only.
  module _ (s s₁ : Fs H) (parent file name size flags : ℕ) (name_text : List ℕ)
      (is_live : live parent ≡ true) (new : live file ≡ false) (nonzero : file ≢ 0)
      (others : (x : ℕ) → x ≢ file → s₁.file x ≡ s.file x)
      (texts : (x : ℕ) → live x ≡ true → s₁.text (s.file x).name ≡ s.text (s.file x).name)
      (named : s₁.text name ≡ name_text) where
    apart : (x : ℕ) → live x ≡ true → x ≢ file
    apart x at e = absurd (true≢false (sym at ∙ (ap live e ∙ new)))

    abbrev placed : Fs H
    placed = place root a parent file name size flags s₁

    abbrev s₂ : Fs H
    s₂ = write file (record (s₁.file file) { name = name; size = size; flags = flags % 2 ^ 16 }) s₁

    s₂-other : (x : ℕ) → x ≢ file → s₂.file x ≡ s.file x
    s₂-other x ne = simp (ne→==_false x file ne) (others x ne)

    placed-other : (x : ℕ) → live x ≡ true → x ≢ parent → placed.file x ≡ s.file x
    unfolding place
    placed-other x at ne =
        link_child-other parent file x s₂ ne (apart x at) ∙ s₂-other x (apart x at)

    placed-parent : placed.file parent ≡ record (s.file parent) { children = file }
    unfolding place
    placed-parent =
        link_child-dir parent file s₂ (λ e. apart parent is_live (sym e))
        ∙ ap {B = File} (λ b. record b { children = file }) (s₂-other parent (apart parent is_live))

    pub placed-file : placed.file file ≡ record (s₁.file file) {
      name = name;
      size = size;
      flags = flags % 2 ^ 16;
      parent = parent;
      next = (s.file parent).children;
    }
    unfolding place
    placed-file =
        link_child-child parent file s₂ (λ e. apart parent is_live (sym e))
        ∙ simp (==_refl file, s₂-other parent (apart parent is_live)) refl

    placed-field :
        (field : File → ℕ)
        → ((b : File) → field (record b { children = file }) ≡ field b)
        → (x : ℕ) → live x ≡ true
        → field (placed.file x) ≡ field (s.file x)
    placed-field field keeps x at = elim (Bool-cases (x == parent)) [
      | inl here ↦
          let e : x ≡ parent = (==_iff x parent).0 here in
          rw e (ap field placed-parent ∙ keeps (s.file parent))
      | inr away ↦ ap field (placed-other x at (ground (arith, away)))
    ]

    pub placed-Grown : Grown live s placed parent file name_text
    unfolding place link_child
    placed-Grown = record {
      siblings = record {
        next = placed-field (λ b. b.next) (λ b. refl);
        name = λ x at. ap s₁.text (placed-field (λ b. b.name) (λ b. refl) x at) ∙ texts x at;
      };
      children = λ x at ne. ap (λ b. File.children b) (placed-other x at ne);
      up = placed-field (λ b. b.parent) (λ b. refl);
      flags = placed-field (λ b. b.flags) (λ b. refl);
      first = ap (λ b. File.children b) placed-parent;
      next = ap (λ b. File.next b) placed-file;
      named = ap (λ b. s₁.text (File.name b)) placed-file ∙ named;
      fresh = new;
      nonzero = nonzero;
    }

  -- The addresses that the heap gives `create_file` one after the other.
  abbrev pub heap₁ : List ℕ → Fs H → H
  heap₁ path s = (a.kmalloc (parent_path_size path) s.heap).1

  abbrev pub parent_path_at : List ℕ → Fs H → ℕ
  parent_path_at path s = (a.kmalloc (parent_path_size path) s.heap).0

  abbrev pub name_at : List ℕ → Fs H → ℕ
  name_at path s = (a.kmalloc (length (parent_and_name path).1 + 1) (heap₁ path s)).0

  abbrev heap₃ : List ℕ → Fs H → H
  heap₃ path s =
      a.kfree (parent_path_at path s)
        (a.kmalloc (length (parent_and_name path).1 + 1) (heap₁ path s)).1

  abbrev pub file_at : List ℕ → Fs H → ℕ
  file_at path s = (a.kcalloc 1 file_size (heap₃ path s)).0

  abbrev pub contents_at : List ℕ → ℕ → Fs H → ℕ
  contents_at path size s = (a.kmalloc size (a.kcalloc 1 file_size (heap₃ path s)).1).0

  -- A state in which nothing but one file differs, and that not in the strings.
  pub record OneFile (file : ℕ) (s s' : Fs H) : Type 0 where
    pub files : (x : ℕ) → x ≢ file → s'.file x ≡ s.file x
    pub text : s'.text ≡ s.text

  -- The state with a new file and a block for its contents.
  abbrev with_contents : ℕ → ℕ → Fs H → Fs H
  with_contents data_from size s =
      let (file, h) = a.kcalloc 1 file_size s.heap in
      let (block, h') = a.kmalloc size h in
      let s₂ = write file zeroed (record s { heap = h }) in
      let s₃ = write file (record zeroed { data_at = block }) (record s₂ { heap = h' }) in
      record s₃ { memory = (memcpy block data_from size s₃.memory).1 }

  pub create_in-success :
      (parent name data_from size flags : ℕ) (s : Fs H)
      → (a.kcalloc 1 file_size s.heap).0 ≢ 0
      → (size ≡ 0) ⊎ ((a.kmalloc size (a.kcalloc 1 file_size s.heap).1).0 ≢ 0)
      → (s₁ : Fs H) × ((create_in root a parent name data_from size flags s
            ≡ (success, place root a parent (a.kcalloc 1 file_size s.heap).0 name size flags s₁))
          × OneFile (a.kcalloc 1 file_size s.heap).0 s s₁)
  unfolding create_in
  create_in-success parent name data_from size flags s some_file contents =
      elim (Bool-cases (size == 0)) [
        | inl e ↦ (
          write (a.kcalloc 1 file_size s.heap).0 zeroed
              (record s { heap = (a.kcalloc 1 file_size s.heap).1 }),
          (
            simp (given, e) refl,
            record { files = λ x ne. simp (ne→==_false x _ ne) refl; text = refl },
          ),
        )
        | inr e ↦ (
          with_contents data_from size s,
          (
            simp (given, e, ne→==_false _ 0 (block contents e)) refl,
            record { files = λ x ne. simp (ne→==_false x _ ne) refl; text = refl },
          ),
        )
      ]
    where
      given : ((a.kcalloc 1 file_size s.heap).0 == 0) ≡ false
      given = ne→==_false _ 0 some_file

      block :
          (size ≡ 0) ⊎ ((a.kmalloc size (a.kcalloc 1 file_size s.heap).1).0 ≢ 0)
          → (size == 0) ≡ false
          → (a.kmalloc size (a.kcalloc 1 file_size s.heap).1).0 ≢ 0
      block (inl none_of_it) e = absurd (ground arith)
      block (inr some_block) e = some_block

  -- The state with the name, for `parse_path`, and with `parent_path` given back.
  abbrev pub with_name : List ℕ → Fs H → Fs H
  with_name name_text s =
      let (name, h) = a.kmalloc (length name_text + 1) s.heap in
      record s { text = λ p. if p == name then name_text else s.text p; heap = h }

  abbrev pub without_path : ℕ → List ℕ → Fs H → Fs H
  without_path parent_path name_text s =
      let s' = with_name name_text s in record s' { heap = a.kfree parent_path s'.heap }

  -- With a pointer for the name, and at a directory that has no child of the name, the middle of
  -- `create_file` goes on to `create_in`.
  pub create_named-create_in :
      (fuel parent_path parent data_from size flags : ℕ) (parent_text name_text : List ℕ) (s : Fs H)
      → (a.kmalloc (length name_text + 1) s.heap).0 ≢ 0
      → is_dots name_text ≡ false
      → parse_path root fuel (with_name name_text s) (some parent_text) ≡ some (found parent)
      → (bit_and (s.file parent).flags is_directory == 0) ≡ false
      → find_child fuel (without_path parent_path name_text s) parent name_text ≡ some 0
      → create_named root a fuel parent_path parent_text name_text data_from size flags s
        ≡ some (
            create_in root a parent
              (a.kmalloc (length name_text + 1) s.heap).0
              data_from
              size
              flags
              (without_path parent_path name_text s))
  unfolding create_named
  create_named-create_in fuel parent_path parent data_from size flags parent_text name_text s
        some_name plain at dir none_before =
      let given = ne→==_false _ 0 some_name in
      rw (create_named, given, plain, at, dir, none_before) refl

  -- With a pointer for `parent_path`, `create_file` goes on to its middle.
  pub create_file-create_named :
      (fuel : ℕ) (path : List ℕ) (data_from size flags : ℕ) (s : Fs H)
      → ((data_from == 0) && (not (size == 0) && (bit_and flags is_directory == 0))) ≡ false
      → (is_empty path || ends_with_slash path) ≡ false
      → parent_path_at path s ≢ 0
      → create_file root a fuel (some path) data_from size flags s
        ≡ create_named root a fuel
            (parent_path_at path s)
            (parent_and_name path).0
            (parent_and_name path).1
            data_from
            size
            flags
            (record s { heap = heap₁ path s })
  unfolding create_file
  create_file-create_named fuel path data_from size flags s data_given plain some_path =
      let given = ne→==_false _ 0 some_path in rw (data_given, plain, given) refl
