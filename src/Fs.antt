-- ===== src/Fs.antt =====
-- The file system in memory, kernel/fs/fs.c and kernel/fs/fs.h. Files are kept by address, 0 is NULL,
-- and `root` is the address of the global of that name. A string is its bytes before the NUL: `text`
-- has the strings behind pointers, a path is given by its bytes, and `none` is the path NULL. The
-- bytes of contents are those of memory. The heap is the interface `Allocator`. A walk along siblings
-- has fuel: the result `none` is a list of siblings without an end in reach. Output is not modelled.
pub mod Files
pub mod Siblings
pub mod Unlink
pub mod Paths
pub mod Create
pub mod Found
pub mod Grown
pub mod Split
pub mod Made
pub mod Created
pub mod Tests
use archa_os.Base.{
  ℕ, zero, suc, ◌+◌, ◌-◌, Bool, true, false, ◌==◌, ltb, if◌then◌else◌, not, ◌&&◌, ◌||◌, bit_and,
  List, [], ◌∷◌, Option, none, some, length,
}
use archa_os.Strings.{Memory, memcpy}

abbrev pub is_directory : ℕ
is_directory = 1

pub data FsReturn : Type 0 where
  success : FsReturn
  fail : FsReturn
  not_found : FsReturn
  invalid_path : FsReturn
  not_a_dir : FsReturn
  is_a_dir : FsReturn
  buf_too_small : FsReturn
  invalid_file : FsReturn
  file_too_small : FsReturn
  permission_denied : FsReturn
  dir_not_empty : FsReturn
  invalid_fs : FsReturn
  alr_exist : FsReturn
  inv_arg : FsReturn
  inv_path : FsReturn

-- `struct file`.
pub record File : Type 0 where
  pub id : ℕ
  pub name : ℕ
  pub parent : ℕ
  pub children : ℕ
  pub next : ℕ
  pub data_at : ℕ
  pub size : ℕ
  pub flags : ℕ

pub record Fs (H : Type 0) : Type 0 where
  pub file : ℕ → File
  pub text : ℕ → List ℕ
  pub memory : Memory
  pub heap : H

-- What the file system calls of the kernel heap.
pub record Allocator (H : Type 0) : Type 0 where
  pub kmalloc : ℕ → H → ℕ × H
  pub kcalloc : ℕ → ℕ → H → ℕ × H
  pub kfree : ℕ → H → H

-- The bytes of two strings are the same: `strcmp` gives 0, or `strlen` and `memcmp` agree.
unfoldable pub same : List ℕ → List ℕ → Bool
same [] [] = true
same (c ∷ s) (d ∷ t) = (c == d) && same s t
same _ _ = false

-- What `parse_path` returns: FS_SUCCESS with the file, or another code.
pub data Parsed : Type 0 where
  found : ℕ → Parsed
  failed : FsReturn → Parsed

-- On to a child that was looked up.
abbrev pub descend : Option ℕ → (ℕ → Option Parsed) → Option Parsed
descend none f = none
descend (some zero) f = some (failed not_found)
descend (some (suc child)) f = f (suc child)

-- `while (*path == '/') ++path`.
unfoldable pub skip_slashes : List ℕ → List ℕ
skip_slashes [] = []
skip_slashes (c ∷ path) = let rest = skip_slashes path in if c == b'/' then rest else c ∷ path

-- `while (*path != '\0' && *path != '/') ++path`: the bytes passed over, and those left.
unfoldable pub take_name : List ℕ → List ℕ × List ℕ
take_name [] = ([], [])
take_name (c ∷ path) =
    let (name, rest) = take_name path in if c == b'/' then ([], c ∷ path) else (c ∷ name, rest)

abbrev pub is_empty : List ℕ → Bool
is_empty [] = true
is_empty (c ∷ path) = false

-- `.` and `..`.
abbrev pub is_dots : List ℕ → Bool
is_dots name = same name (b'.' ∷ []) || same name (b'.' ∷ b'.' ∷ [])

-- A pointer to a pointer to a file: a field of a file.
pub data Link : Type 0 where
  children_of : ℕ → Link
  next_of : ℕ → Link

module _ {H : Type 0} where
  -- `*f = b`.
  abbrev pub write : ℕ → File → Fs H → Fs H
  write f b s = record s { file = λ x. if x == f then b else s.file x }

  -- `for (struct file *f = ...; f != NULL; f = f->next)`, up to the name.
  unfoldable pub find_from : ℕ → Fs H → ℕ → List ℕ → Option ℕ
  find_from zero s f name = none
  find_from (suc fuel) s f name =
      let rest = find_from fuel s (s.file f).next name in
      if f == 0 then some 0 else if same (s.text (s.file f).name) name then some f else rest

  unfoldable pub find_child : ℕ → Fs H → ℕ → List ℕ → Option ℕ
  find_child fuel s dir name = find_from fuel s (s.file dir).children name

  unfoldable pub link_child : ℕ → ℕ → Fs H → Fs H
  link_child dir child s =
      let s₁ = write child (record (s.file child) { parent = dir }) s in
      let s₂ = write child (record (s₁.file child) { next = (s₁.file dir).children }) s₁ in
      write dir (record (s₂.file dir) { children = child }) s₂

  abbrev pub read_link : Fs H → Link → ℕ
  read_link s (children_of f) = (s.file f).children
  read_link s (next_of f) = (s.file f).next

  abbrev pub write_link : Link → ℕ → Fs H → Fs H
  write_link (children_of f) p s = write f (record (s.file f) { children = p }) s
  write_link (next_of f) p s = write f (record (s.file f) { next = p }) s

  -- The loop of `unlink_child`: the link at which it stops.
  unfoldable pub find_link : ℕ → Fs H → ℕ → Link → Option Link
  find_link zero s target link = none
  find_link (suc fuel) s target link =
      let rest = find_link fuel s target (next_of (read_link s link)) in
      if (read_link s link == 0) || (read_link s link == target) then some link else rest

  unfoldable pub unlink_child : ℕ → ℕ → ℕ → Fs H → Option (ℕ × Fs H)
  unlink_child fuel parent target s = elim (find_link fuel s target (children_of parent)) [
    | none ↦ none
    | some link ↦
        if read_link s link == 0
        then some (0, s)
        else let s₁ = write_link link (s.file target).next s in
          some (1, write target (record (s₁.file target) { next = 0 }) s₁)
  ]

module _ {H : Type 0} (root : ℕ) where
  -- The loop of `parse_path`; each round takes a name off the path.
  unfoldable pub parse_loop : ℕ → ℕ → Fs H → ℕ → List ℕ → Option Parsed
  parse_loop zero fuel s current path = none
  parse_loop (suc rounds) fuel s current [] = some (found current)
  parse_loop (suc rounds) fuel s current (c ∷ path) =
      let (name, rest) = take_name (c ∷ path) in
      let here = parse_loop rounds fuel s current (skip_slashes rest) in
      let above = parse_loop rounds fuel s (s.file current).parent (skip_slashes rest) in
      let below =
        descend (find_from fuel s (s.file current).children name)
          (λ child. parse_loop rounds fuel s child (skip_slashes rest)) in
      if same name (b'.' ∷ [])
      then here
      else if same name (b'.' ∷ b'.' ∷ [])
      then above
      else if bit_and (s.file current).flags is_directory == 0
      then some (failed not_a_dir)
      else below

  unfoldable pub parse_path : ℕ → Fs H → Option (List ℕ) → Option Parsed
  parse_path fuel s none = some (failed invalid_path)
  parse_path fuel s (some path) = parse_loop (suc (length path)) fuel s root (skip_slashes path)

  -- The file that a path leads to, for what a function does with it; a code of `parse_path` is
  -- returned as it is.
  abbrev pub with_file :
      Option Parsed → Fs H → (ℕ → Option (FsReturn × Fs H)) → Option (FsReturn × Fs H)
  with_file none s f = none
  with_file (some (failed r)) s f = some (r, s)
  with_file (some (found b)) s f = f b

  unfoldable pub read_file_content : ℕ → Option (List ℕ) → ℕ → ℕ → Fs H → Option (FsReturn × Fs H)
  read_file_content fuel path buffer buf_size s = with_file (parse_path fuel s path) s λ f.
      let b = s.file f in
      if not (bit_and b.flags is_directory == 0)
      then some (is_a_dir, s)
      else if ltb buf_size b.size
      then some (buf_too_small, s)
      else if not (b.size == 0) && (b.data_at == 0)
      then some (invalid_file, s)
      else if not (b.size == 0) && (buffer == 0)
      then some (inv_arg, s)
      else some (success, record s { memory = (memcpy buffer b.data_at b.size s.memory).1 })

  unfoldable pub write_file_content : ℕ → Option (List ℕ) → ℕ → ℕ → Fs H → Option (FsReturn × Fs H)
  write_file_content fuel path buffer buf_size s = with_file (parse_path fuel s path) s λ f.
      let b = s.file f in
      if not (bit_and b.flags is_directory == 0)
      then some (is_a_dir, s)
      else if ltb b.size buf_size
      then some (file_too_small, s)
      else if not (buf_size == 0) && (b.data_at == 0)
      then some (invalid_file, s)
      else if not (b.size == 0) && (buffer == 0)
      then some (inv_arg, s)
      else some (success, record s { memory = (memcpy b.data_at buffer buf_size s.memory).1 })

  -- `*list` on success.
  unfoldable pub list_files : ℕ → Option (List ℕ) → Bool → Fs H → Option Parsed
  list_files fuel path has_list s =
      if not has_list
      then some (failed inv_arg)
      else elim (parse_path fuel s path) as (λ _. Option Parsed) [
        | none ↦ none
        | some (failed r) ↦ some (failed r)
        | some (found f) ↦ some (found (s.file f).children)
      ]

  -- `init_fs` up to the call of `parse_cpio_disk`; `root_name` is the address of "root".
  unfoldable pub init_root : ℕ → Fs H → Fs H
  init_root root_name s =
      write root
        (record (s.file root) {
          id = 0;
          name = root_name;
          parent = root;
          children = 0;
          next = 0;
          flags = is_directory;
        })
        s
