-- ===== src/Cpio.antt =====
-- The extraction of the ramdisk, kernel/fs/drivers/initramfs.c, and `init_fs` of kernel/fs/fs.c. The
-- disk is bytes of memory from the address `disk` on. A name is its bytes before the NUL. `no_end` is
-- a walk of the file system along siblings whose fuel runs out, `out_of_rounds` a disk for which the
-- rounds of the loop run out. Output is not modelled.
pub mod Hex8
pub mod Rounds
pub mod Tests
use archa_os.Base.{
  ℕ, zero, suc, ◌+◌, ◌-◌, ◌*◌, ◌/◌, ◌%◌, ◌^◌, Bool, true, false, ◌==◌, ltb, leb, if◌then◌else◌, not,
  ◌&&◌, ◌||◌, bit_and, List, [], ◌∷◌, ◌++◌, Option, none, some, length, ℤ, pos, negsuc,
}
use archa_os.Strings.{Memory}
use archa_os.Fs.{
  Fs, Allocator, FsReturn, success, alr_exist, same, is_empty, is_directory, init_root,
}
use archa_os.Fs.Files.{create_file, create_folder, ends_with_slash}

abbrev pub max_path : ℕ
max_path = 1024 * 4

-- The value of a hexadecimal digit.
unfoldable pub digit : ℕ → Option ℕ
digit c =
    if leb b'0' c && leb c b'9'
    then some (c - b'0')
    else if leb b'a' c && leb c b'f'
    then some (c - b'a' + 10)
    else if leb b'A' c && leb c b'F'
    then some (c - b'A' + 10)
    else none

-- The loop of `hex8`, with `left` digits to read; `none` is its 0. `(value << 4) | digit` has no
-- bit in common.
unfoldable pub hex8_loop : ℕ → ℕ → ℕ → Memory → Option ℕ
hex8_loop zero s value m = some value
hex8_loop (suc left) s value m = elim (digit (m s)) [
  | none ↦ none
  | some d ↦ hex8_loop left (s + 1) (value * 16 % 2 ^ 32 + d) m
]

unfoldable pub hex8 : ℕ → Memory → Option ℕ
hex8 s m = hex8_loop 8 s 0 m

-- How a part of the extraction ends.
pub data Cpio (H : Type 0) (A : Type 0) : Type 0 where
  returned : A → Fs H → Cpio H A
  no_end : Cpio H A
  out_of_rounds : Cpio H A

-- The bytes from an address on.
unfoldable pub bytes_at : ℕ → ℕ → Memory → List ℕ
bytes_at zero p m = []
bytes_at (suc n) p m = m p ∷ bytes_at n (p + 1) m

-- `strlen` of an array that holds the bytes.
unfoldable pub bytes_before_nul : List ℕ → List ℕ
bytes_before_nul [] = []
bytes_before_nul (c ∷ s) = let rest = bytes_before_nul s in if c == 0 then [] else c ∷ rest

-- `while (name[0] == '.' && name[1] == '/') memmove(name, name + 2, ...)`.
unfoldable pub strip_dots : List ℕ → List ℕ
strip_dots (c ∷ d ∷ name) =
    let rest = strip_dots name in if (c == b'.') && (d == b'/') then rest else c ∷ d ∷ name
strip_dots name = name

-- The last byte dropped.
unfoldable pub without_last : List ℕ → List ℕ
without_last [] = []
without_last (c ∷ []) = []
without_last (c ∷ d ∷ name) = c ∷ without_last (d ∷ name)

-- `while (name_len > 0 && name[name_len - 1] == '/') name[--name_len] = '\0'`.
unfoldable pub strip_slashes : ℕ → List ℕ → List ℕ
strip_slashes zero name = name
strip_slashes (suc left) name =
    let rest = strip_slashes left (without_last name) in if ends_with_slash name then rest else name

-- `(4 - (offset & 3)) & 3`.
abbrev pub padding : ℕ → ℕ
padding offset = (4 - offset % 4) % 4

-- The result of a call of the file system is fine where FS_SUCCESS or FS_ALR_EXIST is.
abbrev pub is_fine : FsReturn → Bool
is_fine success = true
is_fine alr_exist = true
is_fine _ = false

-- The fields of a header from an address on; all must be hexadecimal.
unfoldable pub read_fields : ℕ → ℕ → Memory → Option (List ℕ)
read_fields zero p m = some []
read_fields (suc n) p m =
    let rest = read_fields n (p + 8) m in
    elim (hex8 p m) as (λ _. Option (List ℕ)) [
      | none ↦ none
      | some value ↦ elim rest [ none ↦ none | some values ↦ some (value ∷ values) ]
    ]

abbrev pub field : List ℕ → ℕ → ℕ
field [] i = 0
field (x ∷ xs) zero = x
field (x ∷ xs) (suc i) = field xs i

-- What `parse_cpio_disk` makes of a header: a code that it returns, or the name, the mode, the size
-- of the file, and where its contents start.
pub data Header : Type 0 where
  refused : ℤ → Header
  header : List ℕ → ℕ → ℕ → ℕ → Header

abbrev pub magic : List ℕ
magic = b'0' ∷ b'7' ∷ b'0' ∷ b'7' ∷ b'0' ∷ b'1' ∷ []

abbrev pub trailer : List ℕ
trailer = b'T' ∷ b'R' ∷ b'A' ∷ b'I' ∷ b'L' ∷ b'E' ∷ b'R' ∷ b'!' ∷ b'!' ∷ b'!' ∷ []

abbrev pub starts_with_slash : List ℕ → Bool
starts_with_slash [] = false
starts_with_slash (c ∷ name) = c == b'/'

-- Behind the fields; `offset` is that of the name.
unfoldable pub read_name : ℕ → ℕ → ℕ → List ℕ → Memory → Header
read_name disk disk_size offset fields m =
    let namesize = field fields 11 in
    let name = bytes_before_nul (bytes_at namesize (disk + offset) m) in
    let behind = offset + namesize in
    let contents = behind + padding behind in
    let stripped = strip_dots name in
    if (namesize == 0) || ltb (max_path + 1) namesize
    then refused (negsuc 2)
    else if ltb disk_size offset || ltb (disk_size - offset) namesize
    then refused (negsuc 2)
    else if not (m (disk + behind - 1) == 0) || not (length name == namesize - 1)
    then refused (negsuc 2)
    else if ltb (disk_size - behind) (padding behind)
    then refused (negsuc 4)
    else if same name trailer
    then refused (pos 0)
    else if starts_with_slash stripped
    then refused (negsuc 2)
    else if ltb (disk_size - contents) (field fields 6)
    then refused (negsuc 3)
    else header stripped (field fields 1) (field fields 6) contents

unfoldable pub read_header : ℕ → ℕ → ℕ → Memory → Header
read_header disk disk_size offset m =
    if ltb disk_size offset || ltb (disk_size - offset) 110
    then refused (negsuc 4)
    else if not (same (bytes_at 6 (disk + offset) m) magic)
    then refused (negsuc 1)
    else elim (read_fields 13 (disk + offset + 6) m) [
      | none ↦ refused (negsuc 0)
      | some fields ↦ read_name disk disk_size (offset + 110) fields m
    ]

module _ {H : Type 0} (root : ℕ) (a : Allocator H) (fuel : ℕ) where
  -- The call goes on with whether the result is fine.
  abbrev pub then_fine :
      {A : Type 0} → Option (FsReturn × Fs H) → (Bool → Fs H → Cpio H A) → Cpio H A
  then_fine none f = no_end
  then_fine (some (r, s)) f = f (is_fine r) s

  -- `before` is the path up to the byte that is looked at.
  unfoldable pub ensure_from : List ℕ → List ℕ → Fs H → Cpio H Bool
  ensure_from before [] s = returned true s
  ensure_from before (c ∷ rest) s =
      let further = ensure_from (before ++ (c ∷ [])) rest in
      if not (c == b'/')
      then further s
      else if is_empty before
      then returned false s
      else then_fine (create_folder root a fuel (some before) s)
          (λ fine s'. if fine then further s' else returned false s')

  unfoldable pub ensure_parent_directories : List ℕ → Fs H → Cpio H Bool
  ensure_parent_directories path s = ensure_from [] path s

  -- A code that the caller returns, or on with the state.
  abbrev pub then_ensured : {A : Type 0} → Cpio H Bool → (Bool → Fs H → Cpio H A) → Cpio H A
  then_ensured (returned ok s) f = f ok s
  then_ensured no_end f = no_end
  then_ensured out_of_rounds f = out_of_rounds

  -- A call that makes an item of the disk: -6 if it is not fine, 0 to go on.
  abbrev pub made : Option (FsReturn × Fs H) → Cpio H ℤ
  made r = then_fine r (λ fine s. returned (if fine then pos 0 else negsuc 5) s)

  unfoldable pub make_directory : List ℕ → Fs H → Cpio H ℤ
  make_directory name s =
      let dir = strip_slashes (length name) name in
      if is_empty dir
      then returned (negsuc 2) s
      else then_ensured (ensure_parent_directories dir s) (λ ok s₁.
        if ok then made (create_folder root a fuel (some dir) s₁) else returned (negsuc 5) s₁)

  unfoldable pub make_file : List ℕ → ℕ → ℕ → Fs H → Cpio H ℤ
  make_file name contents filesize s =
      let file = if ends_with_slash name then without_last name else name in
      if is_empty file
      then returned (negsuc 2) s
      else then_ensured (ensure_parent_directories file s) (λ ok s₁.
        if ok
        then made (create_file root a fuel (some file) contents filesize 0 s₁)
        else returned (negsuc 2) s₁)

  -- `kind` is the type of the item; an item of another type is passed over.
  unfoldable pub make_entry : ℕ → List ℕ → ℕ → ℕ → Fs H → Cpio H ℤ
  make_entry kind name contents filesize s =
      if kind == 0o040000
      then make_directory name s
      else if (kind == 0o100000) || ((kind == 0o120000) || (kind == 0))
      then make_file name contents filesize s
      else returned (pos 0) s

  -- A code other than 0 is returned.
  abbrev pub then_made : Cpio H ℤ → (Fs H → Cpio H ℤ) → Cpio H ℤ
  then_made (returned (pos zero) s) f = f s
  then_made (returned r s) f = returned r s
  then_made no_end f = no_end
  then_made out_of_rounds f = out_of_rounds

  -- A round of `parse_cpio_disk` behind its header; `next` goes on at an offset.
  unfoldable pub cpio_round : ℕ → ℕ → (ℕ → Fs H → Cpio H ℤ) → Header → Fs H → Cpio H ℤ
  cpio_round disk disk_size next (refused r) s = returned r s
  cpio_round disk disk_size next (header name mode filesize contents) s =
      let end = contents + filesize in
      let on : Fs H → Cpio H ℤ = λ s'.
        if ltb (disk_size - end) (padding end)
        then returned (negsuc 4) s'
        else next (end + padding end) s' in
      if is_empty name || same name (b'.' ∷ [])
      then on s
      else then_made (make_entry (bit_and mode 0o170000) name (disk + contents) filesize s) on

  -- `for (;;)` of `parse_cpio_disk`.
  unfoldable pub cpio_loop : ℕ → ℕ → ℕ → ℕ → Fs H → Cpio H ℤ
  cpio_loop zero disk disk_size offset s = out_of_rounds
  cpio_loop (suc rounds) disk disk_size offset s =
      cpio_round disk disk_size (cpio_loop rounds disk disk_size)
        (read_header disk disk_size offset s.memory) s

  unfoldable pub parse_cpio_disk : ℕ → ℕ → Fs H → Cpio H ℤ
  parse_cpio_disk disk disk_size s =
      if disk == 0 then returned (negsuc 6) s else cpio_loop (suc disk_size) disk disk_size 0 s

  -- `init_fs`: `panic` is the call of `kernel_panic`, which does not return.
  unfoldable pub init_fs : ℕ → ℕ → ℕ → Fs H → Cpio H Bool
  init_fs root_name initramfs_address initramfs_size s =
      elim (parse_cpio_disk initramfs_address initramfs_size (init_root root root_name s))
        as (λ _. Cpio H Bool) [
          | returned (pos zero) s' ↦ returned true s'
          | returned _ s' ↦ returned false s'
          | no_end ↦ no_end
          | out_of_rounds ↦ out_of_rounds
        ]
