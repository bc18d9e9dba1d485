-- ===== src/Stdio/Print.antt =====
-- What `print` makes of a format: the pieces it is read as, and that it comes to an end.
use archa_os.Base.{
  ℕ, zero, suc, ◌+◌, ◌<◌, ◌≡◌, refl, Bool, true, false, ◌==◌, not, ◌&&◌, ◌||◌, inl, inr, List, [],
  ◌∷◌, some, ◌∙◌, ap, length, arith, Bool-cases,
}
use mathlib.Core.Option.{none-ne-some}
use archa_os.Stdio.Walks.{
  shrinks, shrinks-with_word, shrinks-with_text, shrinks-more, shrinks-step_over, either, ended,
  agreed,
}
use archa_os.Stdio.{
  Arg, word, text, Walk, done, past_end, more, follow, with_word, print_uint, print_int, print_hex,
  print_u64_hex, print_char, print_u64, print_long, print_switch, print_round, print_loop, print,
}

-- A format in pieces. `wide` has the byte behind `%lx` and `other` the two bytes behind a `%` that is
-- no directive.
pub data Piece : Type 0 where
  plain : ℕ → Piece
  signed : ℕ → Piece
  unsigned : ℕ → Piece
  long : ℕ → Piece
  string : List ℕ → Piece
  hex : ℕ → Piece
  wide : ℕ → ℕ → Piece
  long_other : ℕ → Piece
  percent : Piece
  other : ℕ → ℕ → Piece

-- The byte behind a `%` is none that `print` has a case for.
abbrev pub no_directive : ℕ → Bool
no_directive c =
    not (c == b'd' || c == b'u' || c == b'n' || c == b's' || c == b'x' || c == b'l' || c == b'%')

-- A plain byte is no `%`.
unfoldable pub is_piece : Piece → Bool
is_piece (plain c) = not (c == b'%')
is_piece (long_other c) = not (c == b'x')
is_piece (other c d) = no_directive c
is_piece _ = true

unfoldable pub are_pieces : List Piece → Bool
are_pieces [] = true
are_pieces (p ∷ ps) = is_piece p && are_pieces ps

-- What behind a last `%` makes `print` pass over the NUL.
unfoldable pub overruns : List ℕ → Bool
overruns (c ∷ []) = no_directive c || c == b'l'
overruns (c ∷ d ∷ []) = c == b'l' && d == b'x'
overruns _ = false

unfoldable pub written : List Piece → List ℕ → List ℕ
written [] end = end
written (plain c ∷ ps) end = c ∷ written ps end
written (signed n ∷ ps) end = b'%' ∷ b'd' ∷ written ps end
written (unsigned n ∷ ps) end = b'%' ∷ b'u' ∷ written ps end
written (long n ∷ ps) end = b'%' ∷ b'n' ∷ written ps end
written (string t ∷ ps) end = b'%' ∷ b's' ∷ written ps end
written (hex n ∷ ps) end = b'%' ∷ b'x' ∷ written ps end
written (wide n c ∷ ps) end = b'%' ∷ b'l' ∷ b'x' ∷ c ∷ written ps end
written (long_other c ∷ ps) end = b'%' ∷ b'l' ∷ c ∷ written ps end
written (percent ∷ ps) end = b'%' ∷ b'%' ∷ written ps end
written (other c d ∷ ps) end = b'%' ∷ c ∷ d ∷ written ps end

unfoldable pub arguments : List Piece → List Arg → List Arg
arguments [] end = end
arguments (signed n ∷ ps) end = word n ∷ arguments ps end
arguments (unsigned n ∷ ps) end = word n ∷ arguments ps end
arguments (long n ∷ ps) end = word n ∷ arguments ps end
arguments (string t ∷ ps) end = text t ∷ arguments ps end
arguments (hex n ∷ ps) end = word n ∷ arguments ps end
arguments (wide n c ∷ ps) end = word n ∷ arguments ps end
arguments (_ ∷ ps) end = arguments ps end

module _ {S : Type 0} (put : ℕ → S → S) (buf : ℕ → ℕ) where
  unfoldable pub render_piece : Piece → S → S
  render_piece (plain c) s = put c s
  render_piece (signed n) s = print_int put n s
  render_piece (unsigned n) s = print_uint put n s
  render_piece (long n) s = print_u64 put n buf s
  render_piece (string t) s = print_char put t s
  render_piece (hex n) s = print_hex put n s
  render_piece (wide n c) s = print_u64_hex put n s
  render_piece (long_other c) s = put b'l' (put b'%' s)
  render_piece percent s = s
  render_piece (other c d) s = put c (put b'%' s)

  unfoldable pub render : List Piece → S → S
  render [] s = s
  render (p ∷ ps) s = render ps (render_piece p s)

  round-plain :
      (c : ℕ) (rest : List ℕ) (args : List Arg) (s : S)
      → not (c == b'%') ≡ true
      → print_round put buf (c ∷ rest) args s ≡ more rest args (put c s)
  unfolding print_round
  round-plain c [] args s h = rw h refl
  round-plain c (d ∷ rest) args s h = rw h refl

  -- A round reads one piece.
  round_piece :
      (p : Piece) (ps : List Piece) (end : List ℕ) (args : List Arg) (s : S)
      → is_piece p ≡ true
      → print_round put buf (written (p ∷ ps) end) (arguments (p ∷ ps) args) s
        ≡ more (written ps end) (arguments ps args) (render_piece p s)
  unfolding print_round print_switch print_long written arguments render_piece is_piece
  round_piece (plain c) ps end args s h = round-plain c (written ps end) (arguments ps args) s h
  round_piece (signed n) ps end args s h = refl
  round_piece (unsigned n) ps end args s h = refl
  round_piece (long n) ps end args s h = refl
  round_piece (string t) ps end args s h = refl
  round_piece (hex n) ps end args s h = refl
  round_piece (wide n c) ps end args s h = refl
  round_piece (long_other c) ps end args s h = ground arith
  round_piece percent ps end args s h = refl
  round_piece (other c d) ps end args s h = ground arith

  print_loop_piece :
      (p : Piece) (ps : List Piece) (fuel : ℕ) (end : List ℕ) (args : List Arg) (s : S)
      → is_piece p ≡ true
      → print_loop put (suc fuel) buf (written (p ∷ ps) end) (arguments (p ∷ ps) args) s
        ≡ print_loop put fuel buf (written ps end) (arguments ps args) (render_piece p s)
  unfolding print_loop
  print_loop_piece p ps fuel end args s h =
      ap (λ round. follow round (print_loop put fuel buf)) (round_piece p ps end args s h)

  print_loop_pieces :
      (ps : List Piece) (fuel : ℕ) (end : List ℕ) (args : List Arg) (s : S)
      → are_pieces ps ≡ true
      → print_loop put (length ps + fuel) buf (written ps end) (arguments ps args) s
        ≡ print_loop put fuel buf end args (render ps s)
  unfolding are_pieces render
  print_loop_pieces [] fuel end args s h =
      let rounds : 0 + fuel ≡ fuel = omega arith in rw rounds (unfold written arguments in refl)
  print_loop_pieces (p ∷ ps) fuel end args s h =
      let rounds : suc (length ps) + fuel ≡ suc (length ps + fuel) = omega arith in
      rw rounds (
        print_loop_piece p ps (length ps + fuel) end args s (ground arith)
        ∙ print_loop_pieces ps fuel end args (render_piece p s) (ground arith))

  shrinks-print_long :
      (rest : List ℕ) (args : List Arg) (s : S) (n : ℕ)
      → length rest < n
      → shrinks (print_long put buf rest args s) n ≡ true
  unfolding print_long
  shrinks-print_long [] args s n h = shrinks-step_over [] args (put b'l' (put b'%' s)) n h
  shrinks-print_long (c ∷ rest) args s n h = elim (Bool-cases (c == b'x')) [
    | inl e ↦
        rw e (
          shrinks-with_word args _ n
            (λ value args'. shrinks-step_over rest args' _ n (omega arith)))
    | inr e ↦ rw e (shrinks-step_over (c ∷ rest) args _ n h)
  ]

  shrinks-print_switch :
      (c : ℕ) (rest : List ℕ) (args : List Arg) (s : S) (n : ℕ)
      → length rest < n
      → shrinks (print_switch put buf c rest args s) n ≡ true
  unfolding print_switch
  shrinks-print_switch c rest args s n h = either (c == b'd') _ _ n (numeric _) (
      either (c == b'u') _ _ n (numeric _) (
        either (c == b'n') _ _ n (numeric _) (
          either (c == b's') _ _ n
            (shrinks-with_text args _ n (λ t args'. shrinks-more rest args' _ n h))
            (either (c == b'x') _ _ n (numeric _) (
              either (c == b'l') _ _ n (shrinks-print_long rest args s n h) (
                either (c == b'%') _ _ n (shrinks-more rest args s n h)
                  (shrinks-step_over rest args _ n h)))))))
    where
      numeric :
          (f : ℕ → S) → shrinks (with_word args (λ value args'. more rest args' (f value))) n ≡ true
      numeric f = shrinks-with_word args _ n (λ value args'. shrinks-more rest args' (f value) n h)

  shrinks-print_round :
      (format : List ℕ) (args : List Arg) (s : S)
      → shrinks (print_round put buf format args s) (length format) ≡ true
  unfolding print_round
  shrinks-print_round [] args s = unfold shrinks in refl
  shrinks-print_round (c ∷ []) args s =
      either (not (c == b'%')) _ _ 1 (shrinks-more [] args _ 1 (omega arith))
        (unfold shrinks in refl)
  shrinks-print_round (c ∷ d ∷ rest) args s =
      either (not (c == b'%')) _ _ _ (shrinks-more (d ∷ rest) args _ _ (omega arith))
        (shrinks-print_switch d rest args s _ (omega arith))

  -- As many rounds as the format has bytes, and one more, are enough.
  print_loop-ends :
      (fuel : ℕ) (format : List ℕ) (args : List Arg) (s : S)
      → length format < fuel
      → (w : Walk S) × (print_loop put fuel buf format args s ≡ some w)
  unfolding print_loop
  print_loop-ends zero format args s h = absurd (omega arith)
  print_loop-ends (suc fuel) format args s h =
      ended (print_round put buf format args s) (print_loop put fuel buf) (length format)
        (shrinks-print_round format args s)
        (λ rest args' s' fewer. print_loop-ends fuel rest args' s' (omega arith))

  -- The number of rounds does not matter where they are enough.
  print_loop-agree :
      (fuel fuel' : ℕ) (format : List ℕ) (args : List Arg) (s : S) (w w' : Walk S)
      → print_loop put fuel buf format args s ≡ some w
      → print_loop put fuel' buf format args s ≡ some w'
      → w ≡ w'
  unfolding print_loop
  print_loop-agree zero fuel' format args s w w' e e' = absurd (none-ne-some w e)
  print_loop-agree (suc fuel) zero format args s w w' e e' = absurd (none-ne-some w' e')
  print_loop-agree (suc fuel) (suc fuel') format args s w w' e e' =
      agreed (print_round put buf format args s) (print_loop put fuel buf)
        (print_loop put fuel' buf) w w'
        (λ rest args' s'. print_loop-agree fuel fuel' rest args' s' w w') e e'

  -- For every format and every list of arguments, the rounds of the loop of `print` do not run out
  -- before it is done, or one of the two outcomes that C leaves undefined is reached: a step over the
  -- NUL of the format, or an argument that is missing or of another kind.
  pub print-ends :
      (has_framebuffer : Bool) (format : List ℕ) (args : List Arg) (s : S)
      → (w : Walk S) × (print put has_framebuffer buf format args s ≡ some w)
  unfolding print
  print-ends false format args s = (done s, refl)
  print-ends true format args s = print_loop-ends (suc (length format)) format args s (omega arith)

  print_from :
      (ps : List Piece) (fuel : ℕ) (end : List ℕ) (args : List Arg) (s : S) (w : Walk S)
      → are_pieces ps ≡ true
      → print_loop put fuel buf end args (render ps s) ≡ some w
      → print put true buf (written ps end) (arguments ps args) s ≡ some w
  unfolding print
  print_from ps fuel end args s w h e =
      let (w', e') = print-ends true (written ps end) (arguments ps args) s in
      e'
      ∙ ap some (
          print_loop-agree (suc (length (written ps end))) (length ps + fuel) (written ps end)
            (arguments ps args) s w' w e' (print_loop_pieces ps fuel end args s h ∙ e))

  -- A format that is made of pieces puts out the pieces one after the other: plain bytes as they are,
  -- numbers and strings for `%d`, `%u`, `%n`, `%s` and `%x`. `%lx` swallows the byte behind it, `%%`
  -- puts out nothing, and the byte behind an unknown directive is lost.
  pub print_pieces :
      (ps : List Piece) (s : S)
      → are_pieces ps ≡ true
      → print put true buf (written ps []) (arguments ps []) s ≡ some (done (render ps s))
  print_pieces ps s h =
      print_from ps 1 [] [] s (done (render ps s)) h (unfold print_loop print_round in refl)

  -- Behind any pieces, a format that ends with `%lx`, with `%l`, or with a `%` and a byte that is no
  -- directive, is read past its NUL.
  pub print-past_end :
      (ps : List Piece) (end : List ℕ) (n : ℕ) (s : S)
      → are_pieces ps ≡ true
      → overruns end ≡ true
      → print put true buf (written ps (b'%' ∷ end)) (arguments ps (word n ∷ [])) s ≡ some past_end
  print-past_end ps end n s h over =
      print_from ps 1 (b'%' ∷ end) (word n ∷ []) s past_end h (last end (render ps s) over)
    where
      last :
          (end : List ℕ) (s : S)
          → overruns end ≡ true
          → print_loop put 1 buf (b'%' ∷ end) (word n ∷ []) s ≡ some past_end
      last [] s over = unfold overruns in ground (arith, over)
      last (c ∷ []) s over =
          unfold overruns print_loop print_round print_switch print_long in ground (arith, over)
      last (c ∷ d ∷ []) s over =
          unfold overruns print_loop print_round print_switch print_long in ground (arith, over)
      last (c ∷ d ∷ e ∷ rest) s over = unfold overruns in ground (arith, over)
