-- ===== src/Stdio/Buffer.antt =====
-- What `format` writes: text inside its buffer, cut off where it does not fit, and a NUL behind it.
use archa_os.Base.{
  ℕ, zero, suc, ◌+◌, ◌-◌, ◌^◌, ◌%◌, ◌≤◌, ◌<◌, ◌≡◌, refl, Bool, true, false, ◌==◌, ltb, leb,
  if◌then◌else◌, not, ◌||◌, inl, inr, List, [], ◌∷◌, Option, some, length, arith, Bool-cases,
}
use archa_os.Strings.{Memory, store}
use archa_os.Stdio.Walks.{shrinks, shrinks-with_word, shrinks-with_text, shrinks-more, either}
use archa_os.Stdio.{
  Arg, word, text, Walk, done, past_end, bad_argument, more, follow, with_word, with_text, put_down,
  digits_loop, Out, append_char, append_string, append_int, format_switch, format_round,
  format_loop, close, format,
}

module _ (buffer size : ℕ) (m : Memory) where
  -- `out` stands in the buffer with room for a NUL, and outside the buffer nothing has changed.
  pub record Within (o : Out) : Type 0 where
    pub bounds : o.out + o.remaining ≡ buffer + size
    pub room : 0 < o.remaining
    pub from : buffer ≤ o.out
    pub outside : (a : ℕ) → (ltb a buffer || leb (buffer + size) a) ≡ true → o.memory a ≡ m a

  append_char-Within : (c : ℕ) (o : Out) → Within o → Within (append_char c o)
  unfolding append_char
  append_char-Within c o w = elim (Bool-cases (leb o.remaining 1)) [
    | inl full ↦ rw full w
    | inr fits ↦ rw fits (record {
      bounds = let b = w.bounds in ground (arith, b);
      room = ground arith;
      from = let f = w.from in omega (arith, f);
      outside = λ a away.
          let apart : (a == o.out) ≡ false =
            (let b = w.bounds in let f = w.from in ground (arith, b, f)) in
          rw apart (w.outside a away);
    })
  ]

  append_string-Within : (str : List ℕ) (o : Out) → Within o → Within (append_string str o)
  unfolding append_string
  append_string-Within [] o w = w
  append_string-Within (c ∷ str) o w =
      append_string-Within str (append_char c o) (append_char-Within c o w)

  put_down-Within :
      (i : ℕ) (tmp : ℕ → ℕ) (o : Out) → Within o → Within (put_down append_char i tmp o)
  unfolding put_down
  put_down-Within zero tmp o w = w
  put_down-Within (suc i) tmp o w =
      put_down-Within i tmp (append_char (tmp i) o) (append_char-Within (tmp i) o w)

  append_int-Within :
      (value : ℕ) (tmp : ℕ → ℕ) (o : Out) → Within o → Within (append_int value tmp o)
  unfolding append_int
  append_int-Within value tmp o w =
      number (if leb (2 ^ 31) value then (2 ^ 32 - value) % 2 ^ 32 else value)
        (signed (leb (2 ^ 31) value))
    where
      signed : (b : Bool) → Within (if b then append_char b'-' o else o)
      signed true = append_char-Within b'-' o w
      signed false = w

      number :
          (n : ℕ) {o : Out}
          → Within o
          → Within (
              if n == 0
              then append_char b'0' o
              else put_down append_char (digits_loop 10 n 0 tmp).0 (digits_loop 10 n 0 tmp).1 o)
      number n {o} w =
          elim (n == 0)
            as (λ b. Within (
              if b
              then append_char b'0' o
              else put_down append_char (digits_loop 10 n 0 tmp).0 (digits_loop 10 n 0 tmp).1 o)) [
                | true ↦ append_char-Within b'0' o w
                | false ↦ put_down-Within (digits_loop 10 n 0 tmp).0 (digits_loop 10 n 0 tmp).1 o w
              ]

  -- What a walk leaves of the buffer.
  unfoldable Keeps : Walk Out → Type 0
  Keeps (done o) = Within o
  Keeps past_end = Unit
  Keeps bad_argument = Unit
  Keeps (more rest args o) = Within o

  going : (rest : List ℕ) (args : List Arg) {o : Out} → Within o → Keeps (more rest args o)
  unfolding Keeps
  going rest args w = w

  -- The walk has come to an end.
  data Ended : Walk Out → Type 0 where
    returns : (o : Out) → Within o → Ended (done o)
    past : Ended past_end
    no_argument : Ended bad_argument

  Keeps-format_switch :
      (tmp : ℕ → ℕ) (c : ℕ) (rest : List ℕ) (args : List Arg) (o : Out)
      → Within o
      → Keeps (format_switch tmp c rest args o)
  unfolding format_switch
  Keeps-format_switch tmp c rest args o w = which (c == b'd') _ _ (number args) (
      which (c == b's') _ _ (string args) (
        which (c == b'%') _ _ (going rest args (append_char-Within b'%' o w))
          (going rest args (append_char-Within c _ (append_char-Within b'%' o w)))))
    where
      which : (b : Bool) (v w : Walk Out) → Keeps v → Keeps w → Keeps (if b then v else w)
      which true v w kv kw = kv
      which false v w kv kw = kw

      number :
          (args : List Arg)
          → Keeps (with_word args (λ value args'. more rest args' (append_int value tmp o)))
      number [] = unfold Keeps in tt
      number (word n ∷ args) = unfold Keeps in append_int-Within n tmp o w
      number (text t ∷ args) = unfold Keeps in tt

      string :
          (args : List Arg)
          → Keeps (with_text args (λ value args'. more rest args' (append_string value o)))
      string [] = unfold Keeps in tt
      string (word n ∷ args) = unfold Keeps in tt
      string (text t ∷ args) = unfold Keeps in append_string-Within t o w

  Keeps-format_round :
      (tmp : ℕ → ℕ) (fmt : List ℕ) (args : List Arg) (o : Out)
      → Within o
      → Keeps (format_round tmp fmt args o)
  unfolding format_round
  Keeps-format_round tmp [] args o w = unfold Keeps in w
  Keeps-format_round tmp (c ∷ []) args o w = elim (Bool-cases (c == b'%')) [
    | inl e ↦ rw e (unfold Keeps in tt)
    | inr e ↦ rw e (unfold Keeps in append_char-Within c o w)
  ]
  Keeps-format_round tmp (c ∷ d ∷ rest) args o w = elim (Bool-cases (c == b'%')) [
    | inl e ↦ rw e (Keeps-format_switch tmp d rest args o w)
    | inr e ↦ rw e (unfold Keeps in append_char-Within c o w)
  ]

  shrinks-format_round :
      (tmp : ℕ → ℕ) (fmt : List ℕ) (args : List Arg) (o : Out)
      → shrinks (format_round tmp fmt args o) (length fmt) ≡ true
  unfolding format_round
  shrinks-format_round tmp [] args o = unfold shrinks in refl
  shrinks-format_round tmp (c ∷ []) args o =
      either (not (c == b'%')) _ _ 1 (shrinks-more [] args _ 1 (omega arith))
        (unfold shrinks in refl)
  shrinks-format_round tmp (c ∷ d ∷ rest) args o =
      either (not (c == b'%')) _ _ _ (shrinks-more (d ∷ rest) args _ _ (omega arith))
        (switch (length (c ∷ d ∷ rest)) (omega arith))
    where
      switch : (n : ℕ) → length rest < n → shrinks (format_switch tmp d rest args o) n ≡ true
      switch n h =
          unfold format_switch in
          either (d == b'd') _ _ n
            (shrinks-with_word args _ n (λ value args'. shrinks-more rest args' _ n h))
            (either (d == b's') _ _ n
              (shrinks-with_text args _ n (λ value args'. shrinks-more rest args' _ n h))
              (either (d == b'%') _ _ n (shrinks-more rest args _ n h)
                (shrinks-more rest args _ n h)))

  kept :
      (round : Walk Out) (next : List ℕ → List Arg → Out → Option (Walk Out)) (n : ℕ)
      → shrinks round n ≡ true
      → Keeps round
      → ((rest : List ℕ) (args : List Arg) (o : Out)
          → length rest < n
          → Within o
          → (w : Walk Out) × ((next rest args o ≡ some w) × Ended w))
      → (w : Walk Out) × ((follow round next ≡ some w) × Ended w)
  unfolding shrinks
  kept (done o) next n shorter keeps after = (done o, (refl, returns o (unfold Keeps in keeps)))
  kept past_end next n shorter keeps after = (past_end, (refl, past))
  kept bad_argument next n shorter keeps after = (bad_argument, (refl, no_argument))
  kept (more rest args o) next n shorter keeps after =
      after rest args o (ground arith) (unfold Keeps in keeps)

  -- The loop comes to an end, and keeps the buffer.
  format_loop-Ended :
      (fuel : ℕ) (tmp : ℕ → ℕ) (fmt : List ℕ) (args : List Arg) (o : Out)
      → length fmt < fuel
      → Within o
      → (w : Walk Out) × ((format_loop fuel tmp fmt args o ≡ some w) × Ended w)
  unfolding format_loop
  format_loop-Ended zero tmp fmt args o h w = absurd (omega arith)
  format_loop-Ended (suc fuel) tmp fmt args o h w =
      kept (format_round tmp fmt args o) (format_loop fuel tmp) (length fmt)
        (shrinks-format_round tmp fmt args o) (Keeps-format_round tmp fmt args o w)
        (λ rest args' o' fewer w'. format_loop-Ended fuel tmp rest args' o' (omega arith) w')

-- What `format` leaves when it returns: a NUL at `out`, which is in the buffer, and outside of the
-- buffer what was there.
pub record Formatted (buffer size : ℕ) (m : Memory) (o : Out) : Type 0 where
  pub ends : o.memory o.out ≡ 0
  pub from : buffer ≤ o.out
  pub below : o.out < buffer + size
  pub outside : (a : ℕ) → (ltb a buffer || leb (buffer + size) a) ≡ true → o.memory a ≡ m a

-- How a call of `format` ends: in the buffer, or where the format asks for what is not defined.
pub data FormatEnds (buffer size : ℕ) (m : Memory) : Option (Walk Out) → Type 0 where
  returned : (o : Out) → Formatted buffer size m o → FormatEnds buffer size m (some (done o))
  read_past : FormatEnds buffer size m (some past_end)
  wrong_argument : FormatEnds buffer size m (some bad_argument)

-- With a buffer of at least one byte, `format` comes to an end for every format and every list of
-- arguments. If it returns, it has changed only the buffer, and a NUL ends its text there. Else it
-- read the format past its NUL, or an argument that was not there or of the other kind.
pub format-FormatEnds :
    (buffer size : ℕ) (tmp : ℕ → ℕ) (fmt : List ℕ) (args : List Arg) (m : Memory)
    → 0 < size
    → FormatEnds buffer size m (format buffer size tmp fmt args m)
unfolding format
format-FormatEnds buffer size tmp fmt args m h =
    let some_room : (size == 0) ≡ false = ground arith in
    let (w, (e, keeps)) =
      format_loop-Ended buffer size m (suc (length fmt)) tmp fmt args
        (record { out = buffer; remaining = size; memory = m }) (omega arith)
        (record { bounds = refl; room = h; from = omega arith; outside = λ a away. refl }) in
    rw (some_room, e) (closed w keeps)
  where
    closed : (w : Walk Out) → Ended buffer size m w → FormatEnds buffer size m (some (close w))
    closed w (returns o inside) =
        unfold close in
        returned (record o { memory = store o.memory o.out 0 })
          (record {
            ends = ground arith;
            from = inside.from;
            below = let b = inside.bounds in let r = inside.room in omega (arith, b, r);
            outside = λ a away.
                let apart : (a == o.out) ≡ false =
                  (let b = inside.bounds in
                    let r = inside.room in let f = inside.from in ground (arith, b, r, f)) in
                rw apart (inside.outside a away);
          })
    closed w past = unfold close in read_past
    closed w no_argument = unfold close in wrong_argument
