-- ===== src/Cpio/Rounds.antt =====
-- The loop over the items of the disk: it stays in the disk, and comes to an end.
use archa_os.Base.{
  ℕ, zero, suc, ◌+◌, ◌-◌, ◌≤◌, ◌<◌, ◌≡◌, refl, Bool, true, false, ltb, if◌then◌else◌, not, List, [],
  ◌∷◌, Option, none, some, inl, inr, ◌∙◌, sym, arith, Bool-cases, ℤ, pos, negsuc, ◌++◌, ◌&&◌,
}
use mathlib.Core.Bool.{true≢false}
use archa_os.Strings.{Memory}
use archa_os.Fs.{Fs, Allocator, FsReturn}
use archa_os.Cpio.{
  Cpio, returned, no_end, out_of_rounds, Header, refused, header, padding, read_fields, read_name,
  read_header, then_fine, ensure_from, ensure_parent_directories, then_ensured, made,
  make_directory, make_file, make_entry, then_made, cpio_round, cpio_loop, parse_cpio_disk,
}

-- The contents of the item lie in the disk, behind the header and the name.
unfoldable pub in_disk : ℕ → ℕ → Header → Bool
in_disk disk_size offset (refused r) = true
in_disk disk_size offset (header name mode filesize contents) =
    not (ltb contents offset) && not (ltb disk_size (contents + filesize))

in_disk-header :
    (disk_size offset : ℕ) (name : List ℕ) (mode filesize contents : ℕ)
    → in_disk disk_size offset (header name mode filesize contents) ≡ true
    → (offset ≤ contents) × (contents + filesize ≤ disk_size)
unfolding in_disk
in_disk-header disk_size offset name mode filesize contents h =
    (ground (arith, h), ground (arith, h))

read_name-in_disk :
    (disk disk_size offset : ℕ) (fields : List ℕ) (m : Memory)
    → in_disk disk_size offset (read_name disk disk_size offset fields m) ≡ true
unfolding in_disk read_name
read_name-in_disk disk disk_size offset fields m = ground arith

in_disk-unless :
    (disk_size offset : ℕ) (b : Bool) (r : ℤ) (h : Header)
    → in_disk disk_size offset h ≡ true
    → in_disk disk_size offset (if b then refused r else h) ≡ true
unfolding in_disk
in_disk-unless disk_size offset true r h inside = refl
in_disk-unless disk_size offset false r h inside = inside

-- The contents of an item that `read_header` accepts lie in the disk, behind its header.
pub read_header-in_disk :
    (disk disk_size offset : ℕ) (m : Memory)
    → in_disk disk_size (offset + 110) (read_header disk disk_size offset m) ≡ true
unfolding read_header
read_header-in_disk disk disk_size offset m =
    in_disk-unless disk_size (offset + 110) _ (negsuc 4) _ (
      in_disk-unless disk_size (offset + 110) _ (negsuc 1) _
        (valid (read_fields 13 (disk + offset + 6) m)))
  where
    valid :
        (o : Option (List ℕ))
        → in_disk disk_size (offset + 110) (elim o as (λ _. Header) [
          | none ↦ refused (negsuc 0)
          | some fields ↦ read_name disk disk_size (offset + 110) fields m
        ])
          ≡ true
    valid none = unfold in_disk in refl
    valid (some fields) = read_name-in_disk disk disk_size (offset + 110) fields m

module _ {H : Type 0} {A : Type 0} where
  -- The rounds do not run out.
  unfoldable pub ends : Cpio H A → Bool
  ends (returned r s) = true
  ends no_end = true
  ends out_of_rounds = false

  ends-if :
      (b : Bool) (x y : Cpio H A) → ends x ≡ true → ends y ≡ true → ends (if b then x else y) ≡ true
  ends-if true x y ex ey = ex
  ends-if false x y ex ey = ey

  ends-returned : (r : A) (s : Fs H) → ends (returned r s) ≡ true
  unfolding ends
  ends-returned r s = refl

module _ {H : Type 0} (root : ℕ) (a : Allocator H) (fuel : ℕ) where
  ends-then_fine :
      {A : Type 0} (r : Option (FsReturn × Fs H)) (f : Bool → Fs H → Cpio H A)
      → ((fine : Bool) (s : Fs H) → ends (f fine s) ≡ true)
      → ends (then_fine root a fuel r f) ≡ true
  ends-then_fine none f h = unfold ends in refl
  ends-then_fine (some (r, s)) f h = h _ s

  ends-then_ensured :
      {A : Type 0} (x : Cpio H Bool) (f : Bool → Fs H → Cpio H A)
      → ends x ≡ true
      → ((ok : Bool) (s : Fs H) → ends (f ok s) ≡ true)
      → ends (then_ensured root a fuel x f) ≡ true
  ends-then_ensured (returned ok s) f e h = h ok s
  ends-then_ensured no_end f e h = unfold ends in refl
  ends-then_ensured out_of_rounds f e h = absurd (true≢false (sym e ∙ (unfold ends in refl)))

  ends-then_made :
      (x : Cpio H ℤ) (f : Fs H → Cpio H ℤ)
      → ends x ≡ true
      → ((s : Fs H) → ends (f s) ≡ true)
      → ends (then_made root a fuel x f) ≡ true
  ends-then_made (returned (pos zero) s) f e h = h s
  ends-then_made (returned (pos (suc n)) s) f e h = ends-returned (pos (suc n)) s
  ends-then_made (returned (negsuc n) s) f e h = ends-returned (negsuc n) s
  ends-then_made no_end f e h = unfold ends in refl
  ends-then_made out_of_rounds f e h = absurd (true≢false (sym e ∙ (unfold ends in refl)))

  ends-ensure_from :
      (before rest : List ℕ) (s : Fs H) → ends (ensure_from root a fuel before rest s) ≡ true
  unfolding ensure_from
  ends-ensure_from before [] s = ends-returned true s
  ends-ensure_from before (c ∷ rest) s =
      let further : (s : Fs H) → ends (ensure_from root a fuel (before ++ (c ∷ [])) rest s) ≡ true =
        ends-ensure_from (before ++ (c ∷ [])) rest in
      ends-if _ _ _ (further s) (
        ends-if _ _ _ (ends-returned false s)
          (ends-then_fine _ _ (λ fine s'. ends-if fine _ _ (further s') (ends-returned false s'))))

  ends-made : (r : Option (FsReturn × Fs H)) → ends (made root a fuel r) ≡ true
  ends-made r = ends-then_fine r _ (λ fine s. ends-returned _ s)

  ends-make_directory : (name : List ℕ) (s : Fs H) → ends (make_directory root a fuel name s) ≡ true
  unfolding make_directory ensure_parent_directories
  ends-make_directory name s = ends-if _ _ _ (ends-returned _ s) (
      ends-then_ensured _ _ (ends-ensure_from [] _ s)
        (λ ok s₁. ends-if ok _ _ (ends-made _) (ends-returned _ s₁)))

  ends-make_file :
      (name : List ℕ) (contents filesize : ℕ) (s : Fs H)
      → ends (make_file root a fuel name contents filesize s) ≡ true
  unfolding make_file ensure_parent_directories
  ends-make_file name contents filesize s = ends-if _ _ _ (ends-returned _ s) (
      ends-then_ensured _ _ (ends-ensure_from [] _ s)
        (λ ok s₁. ends-if ok _ _ (ends-made _) (ends-returned _ s₁)))

  ends-make_entry :
      (kind : ℕ) (name : List ℕ) (contents filesize : ℕ) (s : Fs H)
      → ends (make_entry root a fuel kind name contents filesize s) ≡ true
  unfolding make_entry
  ends-make_entry kind name contents filesize s =
      ends-if _ _ _ (ends-make_directory name s)
        (ends-if _ _ _ (ends-make_file name contents filesize s) (ends-returned _ s))

  -- A round that goes on does so at a later place of the disk.
  ends-round :
      (disk disk_size offset : ℕ) (next : ℕ → Fs H → Cpio H ℤ) (h : Header) (s : Fs H)
      → in_disk disk_size (offset + 110) h ≡ true
      → ((offset' : ℕ) (s : Fs H)
          → offset + 110 ≤ offset'
          → offset' ≤ disk_size
          → ends (next offset' s) ≡ true)
      → ends (cpio_round root a fuel disk disk_size next h s) ≡ true
  unfolding cpio_round
  ends-round disk disk_size offset next (refused r) s inside after = ends-returned r s
  ends-round disk disk_size offset next (header name mode filesize contents) s inside after =
      ends-if _ _ _ (on s) (ends-then_made _ _ (ends-make_entry _ name _ filesize s) on)
    where
      end : ℕ
      end = contents + filesize

      on :
          (s' : Fs H)
          → ends (
              if ltb (disk_size - end) (padding end)
              then returned (negsuc 4) s'
              else next (end + padding end) s')
            ≡ true
      on s' = elim (Bool-cases (ltb (disk_size - end) (padding end))) [
        | inl e ↦ rw e (ends-returned (negsuc 4) s')
        | inr e ↦ rw e (
            after (end + padding end) s'
              (let (behind, within) =
                  in_disk-header disk_size (offset + 110) name mode filesize contents inside in
                omega (arith, behind))
              (let (behind, within) =
                  in_disk-header disk_size (offset + 110) name mode filesize contents inside in
                ground (arith, within, e)))
      ]

  -- Each round takes a header off the disk.
  ends-cpio_loop :
      (rounds disk disk_size offset : ℕ) (s : Fs H)
      → offset ≤ disk_size
      → disk_size < offset + rounds
      → ends (cpio_loop root a fuel rounds disk disk_size offset s) ≡ true
  unfolding cpio_loop
  ends-cpio_loop zero disk disk_size offset s inside h = absurd (omega arith)
  ends-cpio_loop (suc rounds) disk disk_size offset s inside h =
      ends-round disk disk_size offset (cpio_loop root a fuel rounds disk disk_size)
        (read_header disk disk_size offset s.memory) s
        (read_header-in_disk disk disk_size offset s.memory)
        (λ offset' s' later inside'.
          ends-cpio_loop rounds disk disk_size offset' s' inside' (omega arith))

  -- For every disk `parse_cpio_disk` comes to an end within its rounds: the loop never goes on at
  -- the same place.
  pub parse_cpio_disk-ends :
      (disk disk_size : ℕ) (s : Fs H) → ends (parse_cpio_disk root a fuel disk disk_size s) ≡ true
  unfolding parse_cpio_disk
  parse_cpio_disk-ends disk disk_size s =
      ends-if _ _ _ (ends-returned (negsuc 6) s)
        (ends-cpio_loop (suc disk_size) disk disk_size 0 s (omega arith) (omega arith))
