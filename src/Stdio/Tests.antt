-- ===== src/Stdio/Tests.antt =====
-- Runs of the formatted output, and the theorems at concrete formats.
use archa_os.Base.{ℕ, ◌≡◌, refl, true, List, [], ◌∷◌, some, arith}
use archa_os.Stdio.{
  Arg, word, text, Walk, done, past_end, print, print_int, print_u64, print_u64_hex, format,
}
use archa_os.Stdio.Numbers.{Prints, PrintsSigned, print_u64-IsDecimal, print_int-IsDecimal}
use archa_os.Stdio.Print.{
  Piece, plain, signed, long, string, wide, percent, other, written, arguments, render, are_pieces,
  is_piece, overruns, print-ends, print_pieces, print-past_end,
}
use archa_os.Stdio.Buffer.{FormatEnds, format-FormatEnds}

-- The bytes that were put out, the last one first.
abbrev Screen : Type 0
Screen = List ℕ

abbrev put : ℕ → Screen → Screen
put c s = c ∷ s

abbrev no_bytes : ℕ → ℕ
no_bytes i = 0

-- `-7 and 0x...`: a negative number, two swallowed bytes.
abbrev pieces : List Piece
pieces =
    signed 4294967289
    ∷ plain b' '
    ∷ string (b'o' ∷ b'k' ∷ [])
    ∷ percent
    ∷ wide 255 b'!'
    ∷ other b'q' b'z'
    ∷ long 10
    ∷ []

pieces_written :
    written (signed 3 ∷ wide 5 b'!' ∷ []) [] ≡ b'%' ∷ b'd' ∷ b'%' ∷ b'l' ∷ b'x' ∷ b'!' ∷ []
unfolding written
pieces_written = refl

print_short :
    print put true no_bytes (b'%' ∷ b'd' ∷ b'%' ∷ b'%' ∷ b'.' ∷ []) (word 4294967254 ∷ []) []
    ≡ some (done (b'.' ∷ b'2' ∷ b'4' ∷ b'-' ∷ []))
unfolding print archa_os.Stdio.print_loop archa_os.Stdio.print_round archa_os.Stdio.print_switch
    print_int archa_os.Stdio.print_uint archa_os.Stdio.print_uint_from
print_short = refl

are_pieces-pieces : are_pieces pieces ≡ true
unfolding are_pieces is_piece
are_pieces-pieces = refl

overruns-wide : overruns (b'l' ∷ b'x' ∷ []) ≡ true
unfolding overruns
overruns-wide = refl

print_u64-IsDecimal_example :
    Prints put 18446744073709551615 20 (print_u64 put 18446744073709551615 no_bytes)
print_u64-IsDecimal_example = print_u64-IsDecimal put 18446744073709551615 no_bytes (omega arith)

print_int-IsDecimal_example : PrintsSigned put 2147483648 (print_int put 2147483648)
print_int-IsDecimal_example = print_int-IsDecimal put 2147483648 (omega arith)

print-ends_example : (w : Walk Screen) × (print put true no_bytes (b'%' ∷ b'l' ∷ []) [] [] ≡ some w)
print-ends_example = print-ends put no_bytes true (b'%' ∷ b'l' ∷ []) [] []

print_pieces_example :
    print put true no_bytes (written pieces []) (arguments pieces []) []
    ≡ some (done (render put no_bytes pieces []))
print_pieces_example = print_pieces put no_bytes pieces [] are_pieces-pieces

print-past_end_example :
    print put true no_bytes
      (written pieces (b'%' ∷ b'l' ∷ b'x' ∷ []))
      (arguments pieces (word 9 ∷ []))
      []
    ≡ some past_end
print-past_end_example =
    print-past_end put no_bytes pieces (b'l' ∷ b'x' ∷ []) 9 [] are_pieces-pieces overruns-wide

format-FormatEnds_example :
    FormatEnds 1000 4 no_bytes
      (format 1000 4 no_bytes (b'a' ∷ b'%' ∷ b'd' ∷ []) (word 12345 ∷ []) no_bytes)
format-FormatEnds_example =
    format-FormatEnds 1000 4 no_bytes (b'a' ∷ b'%' ∷ b'd' ∷ []) (word 12345 ∷ []) no_bytes
      (omega arith)
