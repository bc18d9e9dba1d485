-- ===== src/Stdio/Numbers.antt =====
-- What the numbers of kernel/lib/stdio.c put out: text that reads back as the number.
use archa_os.Base.{
  ℕ, zero, suc, ◌+◌, ◌-◌, ◌/◌, ◌%◌, ◌^◌, ◌≤◌, ◌<◌, ◌≡◌, refl, true, false, ◌==◌, leb, if◌then◌else◌,
  inl, inr, List, [], ◌∷◌, ◌++◌, ◌∙◌, sym, arith, Bool-cases,
}
use archa_os.Strings.{store}
use archa_os.Stdio.{
  print_uint_from, print_uint, print_int, print_char, digits_loop, put_down, print_u64, Out,
  append_char, append_int,
}
use archa_os.Stdio.Decimal.{
  IsDecimal, digits_of, digits_of-zero, digits_of-IsDecimal, zero-IsDecimal,
}

module _ {S : Type 0} (put : ℕ → S → S) where
  print_char-nil : (s : S) → print_char put [] s ≡ s
  unfolding print_char
  print_char-nil s = refl

  pub print_char-cons :
      (c : ℕ) (text : List ℕ) (s : S) → print_char put (c ∷ text) s ≡ print_char put text (put c s)
  unfolding print_char
  print_char-cons c text s = refl

  -- Digits that are put out, what `digits_of` says, with text behind them.
  print_uint_from_lem :
      (fuel n : ℕ) (text : List ℕ) (s : S)
      → 0 < n
      → n < 10 ^ fuel
      → print_char put text (print_uint_from put fuel n s)
        ≡ print_char put (digits_of fuel n text) s
  unfolding print_uint_from print_char digits_of
  print_uint_from_lem zero n text s pos h = absurd (omega arith)
  print_uint_from_lem (suc fuel) n text s pos h = elim (Bool-cases (leb 10 n)) [
    | inl more ↦
        let rest =
          print_uint_from_lem fuel (n / 10) ((b'0' + n % 10) ∷ text) s (ground arith)
            (omega arith) in
        let some_left : (n == 0) ≡ false = ground arith in rw (more, some_left) rest
    | inr last ↦
        let none_left : n / 10 ≡ 0 = ground arith in
        let some_left : (n == 0) ≡ false = ground arith in
        let end = digits_of-zero fuel ((b'0' + n % 10) ∷ text) in
        rw (last, some_left, none_left, end) refl
  ]

  put_down-store :
      (i j c : ℕ) (buf : ℕ → ℕ) (s : S)
      → i ≤ j
      → put_down put i (store buf j c) s ≡ put_down put i buf s
  unfolding put_down
  put_down-store zero j c buf s h = refl
  put_down-store (suc i) j c buf s h =
      let apart : (i == j) ≡ false = ground arith in
      rw apart (put_down-store i j c buf (put (buf i) s) (omega arith))

  put_down-push :
      (i c : ℕ) (buf : ℕ → ℕ) (text : List ℕ)
      → ((s : S) → put_down put i buf s ≡ print_char put text s)
      → (s : S) → put_down put (suc i) (store buf i c) s ≡ print_char put (c ∷ text) s
  unfolding put_down print_char
  put_down-push i c buf text filled s =
      let newest : store buf i c i ≡ c = ground arith in
      rw newest (put_down-store i i c buf (put c s) (omega arith) ∙ filled (put c s))

  -- A buffer filled from the least digit up, put out from the top down.
  put_down-digits_loop :
      (fuel n i : ℕ) (buf : ℕ → ℕ) (text : List ℕ)
      → ((s : S) → put_down put i buf s ≡ print_char put text s)
      → (s : S)
      → put_down put (digits_loop fuel n i buf).0 (digits_loop fuel n i buf).1 s
        ≡ print_char put (digits_of fuel n text) s
  unfolding digits_loop digits_of
  put_down-digits_loop zero n i buf text filled s = filled s
  put_down-digits_loop (suc fuel) n i buf text filled s = elim (Bool-cases (n == 0)) [
    | inl last ↦ rw last (filled s)
    | inr more ↦
        let here = put_down-push i (b'0' + n % 10) buf text filled in
        rw more (
          put_down-digits_loop fuel (n / 10) (suc i) (store buf i (b'0' + n % 10))
            ((b'0' + n % 10) ∷ text) here s)
  ]

  put_down-zero : (buf : ℕ → ℕ) (s : S) → put_down put 0 buf s ≡ print_char put [] s
  unfolding put_down print_char
  put_down-zero buf s = refl

  -- What is put out is the decimal text of a number.
  abbrev pub Prints : ℕ → ℕ → (S → S) → Type 0
  Prints value bound run =
      (text : List ℕ) × (IsDecimal value bound text × ((s : S) → run s ≡ print_char put text s))

  -- A number by way of a buffer of `places` bytes.
  put_number :
      (places value : ℕ) (buf : ℕ → ℕ)
      → 0 < places
      → value < 10 ^ places
      → Prints value places (λ s.
        if value == 0
        then put b'0' s
        else put_down put (digits_loop places value 0 buf).0 (digits_loop places value 0 buf).1 s)
  put_number places value buf pos h = elim (Bool-cases (value == 0)) [
    | inl none_left ↦
        let is_zero : value ≡ 0 = ground arith in
        (
          b'0' ∷ [],
          (rw is_zero (zero-IsDecimal places pos), λ s. rw none_left (unfold print_char in refl)),
        )
    | inr some_left ↦ (
      digits_of places value [],
      (
        digits_of-IsDecimal places value (ground arith) h,
        λ s. rw some_left (put_down-digits_loop places value 0 buf [] (put_down-zero buf) s),
      ),
    )
  ]

  -- The number of 64 bits that `print_u64` puts out is its shortest decimal text, which fits the 20
  -- bytes of the buffer and reads back as the number.
  pub print_u64-IsDecimal :
      (value : ℕ) (buf : ℕ → ℕ) → value < 2 ^ 64 → Prints value 20 (print_u64 put value buf)
  unfolding print_u64
  print_u64-IsDecimal value buf h = put_number 20 value buf (omega arith) (omega arith)

  print_uint-IsDecimal : (value : ℕ) → value < 2 ^ 32 → Prints value 10 (print_uint put value)
  unfolding print_uint
  print_uint-IsDecimal value h = elim (Bool-cases (value == 0)) [
    | inl none_left ↦
        let is_zero : value ≡ 0 = ground arith in
        (
          b'0' ∷ [],
          (
            rw is_zero (zero-IsDecimal 10 (omega arith)),
            λ s. rw is_zero (unfold print_char print_uint_from in refl),
          ),
        )
    | inr some_left ↦ (
      digits_of 10 value [],
      (
        digits_of-IsDecimal 10 value (ground arith) (omega arith),
        λ s.
            sym (print_char-nil _) ∙ print_uint_from_lem 10 value [] s (ground arith) (omega arith),
      ),
    )
  ]

-- The sign and the size of an `int` that is given as its word.
abbrev pub sign : ℕ → List ℕ
sign value = if leb (2 ^ 31) value then b'-' ∷ [] else []

abbrev pub magnitude : ℕ → ℕ
magnitude value = if leb (2 ^ 31) value then 2 ^ 32 - value else value

module _ {S : Type 0} (put : ℕ → S → S) where
  abbrev pub PrintsSigned : ℕ → (S → S) → Type 0
  PrintsSigned value run =
      (text : List ℕ) × (IsDecimal (magnitude value) 10 text
        × ((s : S) → run s ≡ print_char put (sign value ++ text) s))

  -- An `int` is put out as a `-` if it is negative, and then its size in decimal; the smallest
  -- `int` is no exception.
  pub print_int-IsDecimal : (value : ℕ) → value < 2 ^ 32 → PrintsSigned value (print_int put value)
  unfolding print_int
  print_int-IsDecimal value h = elim (Bool-cases (leb (2 ^ 31) value)) [
    | inl negative ↦
        let size : (2 ^ 32 - value) % 2 ^ 32 ≡ 2 ^ 32 - value = ground arith in
        let (text, (decimal, runs)) = print_uint-IsDecimal put (2 ^ 32 - value) (ground arith) in
        (
          text,
          (
            rw negative decimal,
            λ s. rw (negative, size) (runs (put b'-' s) ∙ sym (print_char-cons put b'-' text s)),
          ),
        )
    | inr positive ↦
        let (text, (decimal, runs)) = print_uint-IsDecimal put value h in
        (text, (rw positive decimal, λ s. rw positive (runs s)))
  ]

-- The `int` that `append_int` writes is the same text, by way of `append_char`.
pub append_int-IsDecimal :
    (value : ℕ) (tmp : ℕ → ℕ)
    → value < 2 ^ 32
    → PrintsSigned append_char value (append_int value tmp)
unfolding append_int
append_int-IsDecimal value tmp h = elim (Bool-cases (leb (2 ^ 31) value)) [
  | inl negative ↦
      let size : (2 ^ 32 - value) % 2 ^ 32 ≡ 2 ^ 32 - value = ground arith in
      below negative size
        (put_number append_char 10 (2 ^ 32 - value) tmp (omega arith) (omega arith))
  | inr positive ↦
      let (text, (decimal, runs)) =
        put_number append_char 10 value tmp (omega arith) (omega arith) in
      (text, (rw positive decimal, λ s. rw positive (runs s)))
]
  where
    run : ℕ → Out → Out
    run n s =
        if n == 0
        then append_char b'0' s
        else put_down append_char (digits_loop 10 n 0 tmp).0 (digits_loop 10 n 0 tmp).1 s

    below :
        leb (2 ^ 31) value ≡ true
        → (2 ^ 32 - value) % 2 ^ 32 ≡ 2 ^ 32 - value
        → Prints append_char (2 ^ 32 - value) 10 (run (2 ^ 32 - value))
        → PrintsSigned append_char value (append_int value tmp)
    below negative size (text, (decimal, runs)) = (
      text,
      (
        rw negative decimal,
        λ s.
            rw (negative, size)
              (runs (append_char b'-' s) ∙ sym (print_char-cons append_char b'-' text s)),
      ),
    )
