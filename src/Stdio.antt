-- ===== src/Stdio.antt =====
-- Formatted output, kernel/lib/stdio.c. `put` is `Putchar` with the colours and the font that every
-- call here gives it, over a state of its own. A format string is its bytes before the NUL, and the
-- variable arguments are a list. `past_end` is a read behind the NUL of a format, `bad_argument` an
-- argument that is missing or of the other kind: what the code does then is not defined.
pub mod Decimal
pub mod Numbers
pub mod Hex
pub mod Walks
pub mod Print
pub mod Buffer
pub mod Tests
use archa_os.Base.{
  ℕ, zero, suc, ◌+◌, ◌-◌, ◌*◌, ◌/◌, ◌%◌, ◌^◌, Bool, true, false, ◌==◌, ltb, leb, if◌then◌else◌, not,
  List, [], ◌∷◌, Option, none, some, get_elem?, length,
}
use mathlib.Core.Option
use archa_os.Strings.{Memory, store}

-- `hex_chars[n]`, for `n` below 16.
abbrev pub hex_char : ℕ → ℕ
hex_char n = if ltb n 10 then b'0' + n else b'A' + (n - 10)

-- A variable argument: a number, as the word that is passed, or a string.
pub data Arg : Type 0 where
  word : ℕ → Arg
  text : List ℕ → Arg

-- How a walk along a format ends, or whether it goes on.
pub data Walk (S : Type 0) : Type 0 where
  done : S → Walk S
  past_end : Walk S
  bad_argument : Walk S
  more : List ℕ → List Arg → S → Walk S

-- The rounds of a loop: what the walk comes to, or the next round.
abbrev pub follow :
    {S : Type 0} → Walk S → (List ℕ → List Arg → S → Option (Walk S)) → Option (Walk S)
follow (done s) next = some (done s)
follow past_end next = some past_end
follow bad_argument next = some bad_argument
follow (more rest args s) next = next rest args s

-- `va_arg` of a number.
abbrev pub with_word : {S : Type 0} → List Arg → (ℕ → List Arg → Walk S) → Walk S
with_word (word n ∷ args) f = f n args
with_word (text t ∷ args) f = bad_argument
with_word [] f = bad_argument

-- `va_arg` of a string.
abbrev pub with_text : {S : Type 0} → List Arg → (List ℕ → List Arg → Walk S) → Walk S
with_text (text t ∷ args) f = f t args
with_text (word n ∷ args) f = bad_argument
with_text [] f = bad_argument

-- One more byte is passed over.
abbrev pub step_over : {S : Type 0} → List ℕ → List Arg → S → Walk S
step_over [] args s = past_end
step_over (c ∷ rest) args s = more rest args s

-- `while (value) buf[i++] = '0' + value % 10, value /= 10`: the index and the buffer at the end.
unfoldable pub digits_loop : ℕ → ℕ → ℕ → (ℕ → ℕ) → ℕ × (ℕ → ℕ)
digits_loop zero value i buf = (i, buf)
digits_loop (suc fuel) value i buf =
    let rest = digits_loop fuel (value / 10) (suc i) (store buf i (b'0' + value % 10)) in
    if value == 0 then (i, buf) else rest

module _ {S : Type 0} (put : ℕ → S → S) where
  -- A number of 32 bits has at most ten digits, each of which takes a call.
  unfoldable pub print_uint_from : ℕ → ℕ → S → S
  print_uint_from zero value s = s
  print_uint_from (suc fuel) value s =
      let before = print_uint_from fuel (value / 10) s in
      put (b'0' + value % 10) (if leb 10 value then before else s)

  unfoldable pub print_uint : ℕ → S → S
  print_uint value s = print_uint_from 10 value s

  -- An `int` is its word of 32 bits.
  unfoldable pub print_int : ℕ → S → S
  print_int value s =
      if leb (2 ^ 31) value
      then print_uint ((2 ^ 32 - value) % 2 ^ 32) (put b'-' s)
      else print_uint value s

  -- `for (int i = left - 1; i >= 0; i--)`.
  unfoldable pub hex_loop : ℕ → ℕ → S → S
  hex_loop zero value s = s
  hex_loop (suc i) value s = hex_loop i value (put (hex_char (value / 2 ^ (i * 4) % 16)) s)

  unfoldable pub print_hex : ℕ → S → S
  print_hex value s = hex_loop 8 value (put b'x' (put b'0' s))

  unfoldable pub print_u64_hex : ℕ → S → S
  print_u64_hex value s = hex_loop 16 value (put b'x' (put b'0' s))

  unfoldable pub print_char : List ℕ → S → S
  print_char [] s = s
  print_char (c ∷ to_print) s = print_char to_print (put c s)

  -- `while (i--) Putchar(buf[i])`.
  unfoldable pub put_down : ℕ → (ℕ → ℕ) → S → S
  put_down zero buf s = s
  put_down (suc i) buf s = put_down i buf (put (buf i) s)

  -- A number of 64 bits takes at most 20 rounds.
  unfoldable pub print_u64 : ℕ → (ℕ → ℕ) → S → S
  print_u64 value buf s =
      if value == 0
      then put b'0' s
      else let (i, buf') = digits_loop 20 value 0 buf in put_down i buf' s

  -- `case 'l'` of `print`: the format from behind the `l` on.
  unfoldable pub print_long : (ℕ → ℕ) → List ℕ → List Arg → S → Walk S
  print_long buf [] args s = step_over [] args (put b'l' (put b'%' s))
  print_long buf (c ∷ rest) args s =
      if c == b'x'
      then with_word args (λ value args'. step_over rest args' (print_u64_hex value s))
      else step_over (c ∷ rest) args (put b'l' (put b'%' s))

  -- The `switch` of `print`, and the steps along the format behind it; `rest` starts behind `c`.
  unfoldable pub print_switch : (ℕ → ℕ) → ℕ → List ℕ → List Arg → S → Walk S
  print_switch buf c rest args s =
      if c == b'd'
      then with_word args (λ value args'. more rest args' (print_int value s))
      else if c == b'u'
      then with_word args (λ value args'. more rest args' (print_uint value s))
      else if c == b'n'
      then with_word args (λ value args'. more rest args' (print_u64 value buf s))
      else if c == b's'
      then with_text args (λ value args'. more rest args' (print_char value s))
      else if c == b'x'
      then with_word args (λ value args'. more rest args' (print_hex value s))
      else if c == b'l'
      then print_long buf rest args s
      else if c == b'%'
      then more rest args s
      else step_over rest args (put c (put b'%' s))

  -- One round of the loop of `print`.
  unfoldable pub print_round : (ℕ → ℕ) → List ℕ → List Arg → S → Walk S
  print_round buf [] args s = done s
  print_round buf (c ∷ []) args s = if not (c == b'%') then more [] args (put c s) else done s
  print_round buf (c ∷ d ∷ rest) args s =
      if not (c == b'%') then more (d ∷ rest) args (put c s) else print_switch buf d rest args s

  -- Each round takes bytes off the format; `buf` is what the stack holds where `print_u64` has its
  -- buffer. `none` is a walk for which the rounds run out.
  unfoldable pub print_loop : ℕ → (ℕ → ℕ) → List ℕ → List Arg → S → Option (Walk S)
  print_loop zero buf format args s = none
  print_loop (suc fuel) buf format args s =
      follow (print_round buf format args s) (print_loop fuel buf)

  -- `has_framebuffer` is `framebuffer_pb != NULL`.
  unfoldable pub print : Bool → (ℕ → ℕ) → List ℕ → List Arg → S → Option (Walk S)
  print has_framebuffer buf format args s =
      if not has_framebuffer
      then some (done s)
      else print_loop (suc (length format)) buf format args s

-- The variables of `format`: `out`, `remaining` and the memory.
pub record Out : Type 0 where
  pub out : ℕ
  pub remaining : ℕ
  pub memory : Memory

unfoldable pub append_char : ℕ → Out → Out
append_char c o =
    if leb o.remaining 1
    then o
    else record { out = o.out + 1; remaining = o.remaining - 1; memory = store o.memory o.out c }

unfoldable pub append_string : List ℕ → Out → Out
append_string [] o = o
append_string (c ∷ str) o = append_string str (append_char c o)

-- A number of 32 bits takes at most ten rounds of the loop that fills `tmp`.
unfoldable pub append_int : ℕ → (ℕ → ℕ) → Out → Out
append_int value tmp o =
    let negative = leb (2 ^ 31) value in
    let n = if negative then (2 ^ 32 - value) % 2 ^ 32 else value in
    let o' = if negative then append_char b'-' o else o in
    if n == 0
    then append_char b'0' o'
    else let (i, tmp') = digits_loop 10 n 0 tmp in put_down append_char i tmp' o'

-- The `switch` of `format`; `rest` starts behind `c`.
unfoldable pub format_switch : (ℕ → ℕ) → ℕ → List ℕ → List Arg → Out → Walk Out
format_switch tmp c rest args o =
    if c == b'd'
    then with_word args (λ value args'. more rest args' (append_int value tmp o))
    else if c == b's'
    then with_text args (λ value args'. more rest args' (append_string value o))
    else if c == b'%'
    then more rest args (append_char b'%' o)
    else more rest args (append_char c (append_char b'%' o))

-- One round of the loop of `format`. Behind a `%` at the end the NUL is taken for a directive.
unfoldable pub format_round : (ℕ → ℕ) → List ℕ → List Arg → Out → Walk Out
format_round tmp [] args o = done o
format_round tmp (c ∷ []) args o =
    if not (c == b'%') then more [] args (append_char c o) else past_end
format_round tmp (c ∷ d ∷ rest) args o =
    if not (c == b'%')
    then more (d ∷ rest) args (append_char c o)
    else format_switch tmp d rest args o

unfoldable pub format_loop : ℕ → (ℕ → ℕ) → List ℕ → List Arg → Out → Option (Walk Out)
format_loop zero tmp fmt args o = none
format_loop (suc fuel) tmp fmt args o = follow (format_round tmp fmt args o) (format_loop fuel tmp)

-- `*out = '\0'` behind the loop.
unfoldable pub close : Walk Out → Walk Out
close (done o) = done (record o { memory = store o.memory o.out 0 })
close w = w

unfoldable pub format : ℕ → ℕ → (ℕ → ℕ) → List ℕ → List Arg → Memory → Option (Walk Out)
format buffer size tmp fmt args m =
    let start : Out = record { out = buffer; remaining = size; memory = m } in
    if size == 0
    then some (done start)
    else Option.map close (format_loop (suc (length fmt)) tmp fmt args start)
