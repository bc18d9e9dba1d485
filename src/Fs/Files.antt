-- ===== src/Fs/Files.antt =====
-- Making and removing files and folders, kernel/fs/fs.c: `delete_file`, `create_file` and what they
-- are called by.
use archa_os.Base.{
  ◌%◌, ◌^◌, ℕ, zero, suc, ◌+◌, Bool, false, ◌==◌, if◌then◌else◌, not, ◌&&◌, ◌||◌, bit_and, List, [],
  ◌∷◌, Option, none, some, length,
}
use archa_os.Strings.{memcpy}
use archa_os.Fs.{
  File, Fs, Allocator, FsReturn, success, fail, permission_denied, dir_not_empty, invalid_fs,
  inv_arg, inv_path, not_a_dir, alr_exist, found, failed, is_empty, is_dots, skip_slashes,
  take_name, write, find_child, link_child, unlink_child, parse_path, with_file, is_directory,
}

-- A file whose bytes are 0.
abbrev pub zeroed : File
zeroed = record {
  id = 0;
  name = 0;
  parent = 0;
  children = 0;
  next = 0;
  data_at = 0;
  size = 0;
  flags = 0;
}

-- `struct file` has six words, a 16-bit number, and six bytes that fill the last word.
abbrev pub file_size : ℕ
file_size = 64

-- The bytes before the last `/` and those behind it.
unfoldable pub split_last : List ℕ → Option (List ℕ × List ℕ)
split_last [] = none
split_last (c ∷ path) = elim (split_last path) [
  | some (before, behind) ↦ some (c ∷ before, behind)
  | none ↦ if c == b'/' then some ([], path) else none
]

unfoldable pub ends_with_slash : List ℕ → Bool
ends_with_slash [] = false
ends_with_slash (c ∷ []) = c == b'/'
ends_with_slash (c ∷ d ∷ path) = ends_with_slash (d ∷ path)

-- What `create_file` writes to `parent_path`, and the name behind it.
unfoldable pub parent_and_name : List ℕ → List ℕ × List ℕ
parent_and_name path = elim (split_last path) [
  | none ↦ (b'.' ∷ [], path)
  | some (before, behind) ↦ (if is_empty before then b'/' ∷ [] else before, behind)
]

-- The size of `parent_path`.
unfoldable pub parent_path_size : List ℕ → ℕ
parent_path_size path = elim (split_last path) [
  | none ↦ 2
  | some (before, behind) ↦ length before + 2
]

module _ {H : Type 0} (root : ℕ) (a : Allocator H) where
  abbrev pub free : ℕ → Fs H → Fs H
  free p s = record s { heap = a.kfree p s.heap }

  unfoldable pub delete_file : ℕ → Option (List ℕ) → Fs H → Option (FsReturn × Fs H)
  delete_file fuel path s = with_file root (parse_path root fuel s path) s λ target.
      let b = s.file target in
      if target == root
      then some (permission_denied, s)
      else if not (bit_and b.flags is_directory == 0) && not (b.children == 0)
      then some (dir_not_empty, s)
      else if b.parent == 0
      then some (invalid_fs, s)
      else elim (unlink_child fuel b.parent target s) as (λ _. Option (FsReturn × Fs H)) [
        | none ↦ none
        | some (zero, s₁) ↦ some (invalid_fs, s₁)
        | some (suc _, s₁) ↦
            let f = s₁.file target in some (success, free target (free f.data_at (free f.name s₁)))
      ]

  -- The end of `create_file`: the fields, and the link.
  unfoldable pub place : ℕ → ℕ → ℕ → ℕ → ℕ → Fs H → Fs H
  place parent file name size flags s =
      link_child parent file
        (write file (record (s.file file) { name = name; size = size; flags = flags % 2 ^ 16 }) s)

  -- The file of `kcalloc`, whose bytes are 0, and its contents.
  unfoldable pub create_in : ℕ → ℕ → ℕ → ℕ → ℕ → Fs H → FsReturn × Fs H
  create_in parent name data_from size flags s =
      let (file, h) = a.kcalloc 1 file_size s.heap in
      let s₁ = record s { heap = h } in
      if file == 0
      then (fail, free name s₁)
      else let s₂ = write file zeroed s₁ in
        if size == 0
        then (success, place parent file name size flags s₂)
        else let (block, h') = a.kmalloc size s₂.heap in
          let s₃ = write file (record zeroed { data_at = block }) (record s₂ { heap = h' }) in
          if block == 0 then (fail, free file (free name s₃)) else (
            success,
            place parent file name size flags
                (record s₃ { memory = (memcpy block data_from size s₃.memory).1 }),
          )

  -- `create_file` from the name on.
  unfoldable pub create_named :
      ℕ → ℕ → List ℕ → List ℕ → ℕ → ℕ → ℕ → Fs H → Option (FsReturn × Fs H)
  create_named fuel parent_path parent_text name_text data_from size flags s =
      let (name, h) = a.kmalloc (length name_text + 1) s.heap in
      let s₁ = record s { heap = h } in
      if name == 0
      then some (fail, free parent_path s₁)
      else let s₂ = record s₁ { text = λ p. if p == name then name_text else s.text p } in
        if is_dots name_text
        then some (fail, free parent_path (free name s₂))
        else let s₃ = free parent_path s₂ in
          elim (parse_path root fuel s₂ (some parent_text)) as (λ _. Option (FsReturn × Fs H)) [
            | none ↦ none
            | some (failed r) ↦ some (r, free name s₃)
            | some (found parent) ↦
                if bit_and (s₃.file parent).flags is_directory == 0
                then some (not_a_dir, free name s₃)
                else elim (find_child fuel s₃ parent name_text) [
                  | none ↦ none
                  | some zero ↦ some (create_in parent name data_from size flags s₃)
                  | some (suc _) ↦ some (alr_exist, free name s₃)
                ]
          ]

  unfoldable pub create_file : ℕ → Option (List ℕ) → ℕ → ℕ → ℕ → Fs H → Option (FsReturn × Fs H)
  create_file fuel none data_from size flags s = some (inv_arg, s)
  create_file fuel (some path) data_from size flags s =
      if (data_from == 0) && (not (size == 0) && (bit_and flags is_directory == 0))
      then some (inv_arg, s)
      else if is_empty path || ends_with_slash path
      then some (inv_path, s)
      else let (parent_path, h) = a.kmalloc (parent_path_size path) s.heap in
        let s₁ = record s { heap = h } in
        if parent_path == 0
        then some (fail, s₁)
        else let (parent_text, name_text) = parent_and_name path in
          create_named fuel parent_path parent_text name_text data_from size flags s₁

  unfoldable pub create_folder : ℕ → Option (List ℕ) → Fs H → Option (FsReturn × Fs H)
  create_folder fuel path s = create_file fuel path 0 0 is_directory s

  unfoldable pub delete_folder : ℕ → Option (List ℕ) → Fs H → Option (FsReturn × Fs H)
  delete_folder fuel path s = delete_file fuel path s

  -- The loop of `create_file_force`: `p` is what is left of the path, which is also what it
  -- looks up and creates.
  unfoldable pub force_loop : ℕ → ℕ → List ℕ → ℕ → ℕ → ℕ → Fs H → Option (FsReturn × Fs H)
  force_loop zero fuel p data_from size flags s = none
  force_loop (suc rounds) fuel [] data_from size flags s = some (success, s)
  force_loop (suc rounds) fuel (c ∷ path) data_from size flags s =
      let p = skip_slashes (take_name (c ∷ path)).1 in
      elim (parse_path root fuel s (some p)) as (λ _. Option (FsReturn × Fs H)) [
        | none ↦ none
        | some (found b) ↦ force_loop rounds fuel p data_from size flags s
        | some (failed r) ↦
            elim (if is_empty p
                then create_file fuel (some p) data_from size flags s
                else create_folder fuel (some p) s)
              as (λ _. Option (FsReturn × Fs H)) [
                | none ↦ none
                | some (success, s₁) ↦ force_loop rounds fuel p data_from size flags s₁
                | some (_, s₁) ↦ some (fail, s₁)
              ]
      ]

  unfoldable pub create_file_force :
      ℕ → Option (List ℕ) → ℕ → ℕ → ℕ → Fs H → Option (FsReturn × Fs H)
  create_file_force fuel none data_from size flags s = some (inv_arg, s)
  create_file_force fuel (some path) data_from size flags s =
      if (data_from == 0) && not (size == 0)
      then some (inv_arg, s)
      else force_loop (suc (length path)) fuel (skip_slashes path) data_from size flags s
