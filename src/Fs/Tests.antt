-- ===== src/Fs/Tests.antt =====
-- A small file system, and the theorems on it.
use archa_os.Base.{ℕ, ◌+◌, ◌≡◌, ◌≢◌, refl, ◌==◌, true, if◌then◌else◌, [], ◌∷◌, some, arith}
use archa_os.Fs.{
  File, Fs, Allocator, success, find_child, link_child, unlink_child, parse_path, is_directory,
}
use archa_os.Fs.Files.{create_file_force}
use mathlib.Core.Path.{subst}
use archa_os.Base.{Bool, List, Bool-cases, ==_iff, inl, inr, sym, ◌||◌}
use archa_os.Fs.Found.{IsClosed, Reached}
use archa_os.Fs.Made.{file_at}
use archa_os.Fs.Created.{IsNew, HasRoom, IsMade, create_file-parse_path}
use archa_os.Fs.{success, same, parse_loop, skip_slashes, take_name, find_from}
use archa_os.Fs.Files.{create_file, parent_and_name, split_last, ends_with_slash, parent_path_size}
use archa_os.Fs.Siblings.{
  Siblings, first_named, find_child-first_named, link_child-Siblings, unlink_child-link_child,
}
use archa_os.Fs.Unlink.{unlink_child-Siblings}
use archa_os.Fs.Paths.{parse_path-walk, walk, components}
use archa_os.Fs.Create.{is_name, create_file_force-is_name}

-- A heap that gives one address after the other.
abbrev counter : Allocator ℕ
counter = record {
  kmalloc = λ n h. (h, h + 100);
  kcalloc = λ n m h. (h, h + 100);
  kfree = λ p h. h;
}

abbrev no_file : File
no_file = record {
  id = 0;
  name = 0;
  parent = 0;
  children = 0;
  next = 0;
  data_at = 0;
  size = 0;
  flags = 0;
}

abbrev named : ℕ → ℕ → ℕ → ℕ → File
named name parent children next = record no_file {
  name = name;
  parent = parent;
  children = children;
  next = next;
  flags = is_directory;
}

-- The root 8 with the directories `a` at 10 and `b` at 20.
abbrev disk : Fs ℕ
disk = record {
  file = λ x.
      if x == 8
      then named 7 8 10 0
      else if x == 10
      then named 11 8 0 20
      else if x == 20
      then named 21 8 0 0
      else no_file;
  text = λ x. if x == 11 then b'a' ∷ [] else if x == 21 then b'b' ∷ [] else [];
  memory = λ x. x;
  heap = 1000;
}

disk-Siblings : Siblings disk.file 10 (10 ∷ 20 ∷ [])
disk-Siblings = (refl, (omega arith, (refl, (omega arith, refl))))

find_child-first_named_example :
    find_child 3 disk 8 (b'b' ∷ [])
    ≡ some (first_named disk.text disk.file (10 ∷ 20 ∷ []) (b'b' ∷ []))
find_child-first_named_example =
    find_child-first_named 3 disk 8 (10 ∷ 20 ∷ []) (b'b' ∷ []) disk-Siblings (omega arith)

link_child-Siblings_example :
    Siblings
      (link_child 8 30 disk).file
      ((link_child 8 30 disk).file 8).children
      (30 ∷ 10 ∷ 20 ∷ [])
link_child-Siblings_example =
    link_child-Siblings 8 30 disk (10 ∷ 20 ∷ []) (omega arith) (omega arith)
      (omega arith, (omega arith, tt)) disk-Siblings

unlink_child-link_child_example :
    (s' : Fs ℕ) × ((unlink_child 1 8 30 (link_child 8 30 disk) ≡ some (1, s'))
      × ((x : ℕ) → x ≢ 30 → s'.file x ≡ disk.file x))
unlink_child-link_child_example = unlink_child-link_child 0 8 30 disk (omega arith) (omega arith)

unlink_child-Siblings_example :
    (s' : Fs ℕ) × ((unlink_child 2 8 20 disk ≡ some (1, s'))
      × (Siblings s'.file (s'.file 8).children (10 ∷ []) × ((s'.file 20).next ≡ 0)))
unlink_child-Siblings_example =
    unlink_child-Siblings 2 8 20 disk (10 ∷ []) [] disk-Siblings ((omega arith, tt), (tt, tt))
      (omega arith) (omega arith)

parse_path-walk_example :
    parse_path 8 3 disk (some (b'/' ∷ b'/' ∷ b'b' ∷ b'/' ∷ []))
    ≡ walk 3 disk 8 (components (b'/' ∷ b'/' ∷ b'b' ∷ b'/' ∷ []))
parse_path-walk_example = parse_path-walk 8 3 disk (b'/' ∷ b'/' ∷ b'b' ∷ b'/' ∷ [])

is_name-x : is_name (b'x' ∷ []) ≡ true
unfolding is_name
is_name-x = refl

create_file_force-is_name_example :
    create_file_force 8 counter 3 (some (b'x' ∷ [])) 5 1 0 disk ≡ some (success, disk)
create_file_force-is_name_example =
    create_file_force-is_name 8 counter 3 (b'x' ∷ []) 5 1 0 disk is_name-x refl

-- The files that are there.
abbrev there : ℕ → Bool
there x = x == 8 || x == 10 || x == 20

there-each : (P : ℕ → Type 0) → P 8 → P 10 → P 20 → (x : ℕ) → there x ≡ true → P x
there-each P root_too a_too b_too x at = elim (Bool-cases (x == 8)) [
  | inl e ↦ subst P (sym ((==_iff x 8).0 e)) root_too
  | inr not_root ↦ elim (Bool-cases (x == 10)) [
    | inl e ↦ subst P (sym ((==_iff x 10).0 e)) a_too
    | inr not_a ↦ let e : x ≡ 20 = ground (arith, at) in subst P (sym e) b_too
  ]
]

disk-IsClosed : IsClosed there disk
disk-IsClosed = record {
  children =
      there-each (λ x. Reached there (disk.file x).children) (inr refl) (inl refl) (inl refl);
  next = there-each (λ x. Reached there (disk.file x).next) (inl refl) (inr refl) (inl refl);
  parent = there-each (λ x. there (disk.file x).parent ≡ true) refl refl refl;
}

abbrev new_path : List ℕ
new_path = b'/' ∷ b'a' ∷ b'/' ∷ b'c' ∷ []

new_path-IsNew : IsNew 8 counter there 3 new_path 10 disk
unfolding parent_and_name split_last ends_with_slash same parse_path parse_loop skip_slashes
    take_name find_child find_from
new_path-IsNew = record {
  full = refl;
  no_slash = refl;
  plain = refl;
  at = refl;
  is_live = refl;
  dir = refl;
  none_before = refl;
}

new_path-HasRoom : HasRoom 8 counter there new_path 4 disk
unfolding parent_and_name split_last parent_path_size
new_path-HasRoom = record {
  some_path = omega arith;
  some_name = omega arith;
  some_file = omega arith;
  contents = inr (omega arith);
  new_file = refl;
  new_name = there-each (λ x. (disk.file x).name ≢ 1100) (omega arith) (omega arith) (omega arith);
}

create_file-parse_path_example :
    (s' : Fs ℕ) × ((create_file 8 counter 3 (some new_path) 500 4 0 disk ≡ some (success, s'))
      × IsMade 8 counter there 4 new_path 10 (file_at 8 counter there new_path disk) 4 0 s')
create_file-parse_path_example =
    create_file-parse_path 8 counter there 3 new_path 500 4 0 10 disk disk-IsClosed refl
      new_path-IsNew new_path-HasRoom refl
