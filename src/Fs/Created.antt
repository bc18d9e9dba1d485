-- ===== src/Fs/Created.antt =====
-- The whole of `create_file` of kernel/fs/fs.c, and `parse_path` behind it.
use archa_os.Base.{
  ◌%◌, ◌^◌, ℕ, suc, ◌≡◌, ◌≢◌, refl, Bool, true, false, ◌==◌, not, ◌&&◌, ◌||◌, bit_and, List, some,
  ◌⊎◌, ◌∙◌, ap, sym, ne→==_false,
}
use archa_os.Fs.{
  File, Fs, Allocator, success, found, find_child, is_directory, is_empty, is_dots, parse_path,
}
use archa_os.Fs.Files.{ends_with_slash, parent_and_name, place, create_file}
use archa_os.Fs.Siblings.{==_refl}
use archa_os.Fs.Found.{IsClosed, SameSiblings, find_from_same, walk_along}
use archa_os.Fs.Grown.{Grown, walk_kept, walk-new}
use archa_os.Fs.Made.{
  heap₁, parent_path_at, name_at, file_at, contents_at, with_name, without_path, OneFile,
  placed-Grown, placed-file, create_in-success, create_named-create_in, create_file-create_named,
}
use archa_os.Fs.Paths.{components, parse_path-walk}
use archa_os.Fs.Split.{parse_path-parent}

module _ {H : Type 0} (root : ℕ) (a : Allocator H) (live : ℕ → Bool) where
  -- The heap has the memory for a new file: the pointers are not NULL, the file is none that is
  -- there, and its name is not where the name of another file is.
  pub record HasRoom (path : List ℕ) (size : ℕ) (s : Fs H) : Type 0 where
    pub some_path : parent_path_at root a live path s ≢ 0
    pub some_name : name_at root a live path s ≢ 0
    pub some_file : file_at root a live path s ≢ 0
    pub contents : (size ≡ 0) ⊎ (contents_at root a live path size s ≢ 0)
    pub new_file : live (file_at root a live path s) ≡ false
    pub new_name : (x : ℕ) → live x ≡ true → (s.file x).name ≢ name_at root a live path s

  -- The path names a new file in a directory that is there.
  pub record IsNew (fuel : ℕ) (path : List ℕ) (parent : ℕ) (s : Fs H) : Type 0 where
    pub full : is_empty path ≡ false
    pub no_slash : ends_with_slash path ≡ false
    pub plain : is_dots (parent_and_name path).1 ≡ false
    pub at : parse_path root fuel s (some (parent_and_name path).0) ≡ some (found parent)
    pub is_live : live parent ≡ true
    pub dir : (bit_and (s.file parent).flags is_directory == 0) ≡ false
    pub none_before : find_child fuel s parent (parent_and_name path).1 ≡ some 0

  -- The path leads to the file, and the file is what was asked for.
  pub record IsMade (fuel : ℕ) (path : List ℕ) (parent file size flags : ℕ) (s : Fs H)
      : Type 0 where
    pub leads : parse_path root fuel s (some path) ≡ some (found file)
    pub parent_is : (s.file file).parent ≡ parent
    pub size_is : (s.file file).size ≡ size
    pub flags_is : (s.file file).flags ≡ flags % 2 ^ 16
    pub first_child : (s.file parent).children ≡ file

  module _ (fuel : ℕ) (path : List ℕ) (data_from size flags parent : ℕ) (s : Fs H)
      (c : IsClosed live s) (root_live : live root ≡ true) (new : IsNew fuel path parent s)
      (room : HasRoom path size s) where
    abbrev name_text : List ℕ
    name_text = (parent_and_name path).1

    abbrev started : Fs H
    started = record s { heap = heap₁ root a live path s }

    -- The state in which `create_file` looks for the parent, and that behind the search.
    abbrev searched : Fs H
    searched = with_name root a live name_text started

    abbrev freed : Fs H
    freed = without_path root a live (parent_path_at root a live path s) name_text started

    text-kept : (x : ℕ) → live x ≡ true → searched.text (s.file x).name ≡ s.text (s.file x).name
    text-kept x at = let apart = ne→==_false _ _ (room.new_name x at) in simp apart refl

    searched-SameSiblings : SameSiblings live s searched
    searched-SameSiblings = record { next = λ x at. refl; name = text-kept }

    parse_path-searched :
        parse_path root fuel searched (some (parent_and_name path).0) ≡ some (found parent)
    parse_path-searched =
        let names = components (parent_and_name path).0 in
        parse_path-walk root fuel searched (parent_and_name path).0
        ∙ walk_along live fuel fuel s searched c (λ x at. refl) (λ x at. refl)
            (λ x n d at e.
              find_from_same live fuel s searched (s.file x).children n c searched-SameSiblings
                (c.children x at)
              ∙ e)
            root names parent root_live
            (sym (parse_path-walk root fuel s (parent_and_name path).0) ∙ new.at)

    find_child-freed : find_child fuel freed parent name_text ≡ some 0
    unfolding find_child
    find_child-freed =
        find_from_same live fuel s freed (s.file parent).children name_text c
          (record { next = λ x at. refl; name = text-kept }) (c.children parent new.is_live)
        ∙ new.none_before

    abbrev file : ℕ
    file = file_at root a live path s

    -- The fields of the new file before it is linked.
    abbrev made : Fs H → Fs H
    made s₁ = place root a parent file (name_at root a live path s) size flags s₁

    text-made :
        (s₁ : Fs H)
        → OneFile root a live file freed s₁
        → (x : ℕ) → live x ≡ true
        → s₁.text (s.file x).name ≡ s.text (s.file x).name
    text-made s₁ one x at = ap (λ t. t (s.file x).name) one.text ∙ text-kept x at

    name-made :
        (s₁ : Fs H)
        → OneFile root a live file freed s₁
        → s₁.text (name_at root a live path s) ≡ name_text
    name-made s₁ one =
        ap (λ t. t (name_at root a live path s)) one.text
        ∙ simp (==_refl (name_at root a live path s)) refl

    -- The new state is `s` with the file in front of the children of the parent.
    made-Grown :
        (s₁ : Fs H)
        → OneFile root a live file freed s₁
        → Grown live s (made s₁) parent file name_text
    made-Grown s₁ one =
        placed-Grown root a live s s₁ parent file (name_at root a live path s) size flags name_text
          new.is_live room.new_file room.some_file one.files (text-made s₁ one) (name-made s₁ one)

    made-IsMade :
        (s₁ : Fs H)
        → OneFile root a live file freed s₁
        → IsMade (suc fuel) path parent file size flags (made s₁)
    unfolding find_child
    made-IsMade s₁ one =
        let g = made-Grown s₁ one in
        let names = components (parent_and_name path).0 in
        let to_parent =
          walk_kept live s (made s₁) parent file name_text c g new.is_live fuel root names parent
            root_live new.none_before
            (sym (parse_path-walk root fuel s (parent_and_name path).0) ∙ new.at) in
        let fields =
          placed-file root a live s s₁ parent file (name_at root a live path s) size flags name_text
            new.is_live room.new_file room.some_file one.files (text-made s₁ one)
            (name-made s₁ one) in
        record {
          leads =
              parse_path-parent root (suc fuel) (made s₁) path parent new.full new.no_slash
                (parse_path-walk root (suc fuel) (made s₁) (parent_and_name path).0 ∙ to_parent)
              ∙ walk-new live s (made s₁) parent file name_text c g new.is_live fuel new.dir
                  new.plain;
          parent_is = ap (λ b. File.parent b) fields;
          size_is = ap (λ b. File.size b) fields;
          flags_is = ap (λ b. File.flags b) fields;
          first_child = g.first;
        }

    -- In a file system whose pointers lead to files that are there, for a path that names a new file
    -- in a directory that is there, and with memory for it, `create_file` succeeds, and then
    -- `parse_path` of the path gives the new file: the first child of the directory, with the size
    -- and the flags that were asked for, cut to their 16 bits.
    pub create_file-parse_path :
        ((data_from == 0) && (not (size == 0) && (bit_and flags is_directory == 0))) ≡ false
        → (s' : Fs H) × ((create_file root a fuel (some path) data_from size flags s
              ≡ some (success, s'))
            × IsMade (suc fuel) path parent file size flags s')
    create_file-parse_path data_given =
        let (s₁, (e, one)) =
          create_in-success root a live parent (name_at root a live path s) data_from size flags
            freed room.some_file room.contents in
        (
          made s₁,
          (
            create_file-create_named root a live fuel path data_from size flags s data_given
                  (ap (λ b. b || ends_with_slash path) new.full ∙ new.no_slash) room.some_path
                ∙ (create_named-create_in root a live fuel (parent_path_at root a live path s)
                      parent data_from size flags (parent_and_name path).0 name_text started
                      room.some_name new.plain parse_path-searched new.dir find_child-freed
                    ∙ ap some e),
            made-IsMade s₁ one,
          ),
        )
