-- ===== src/Stdio/Walks.antt =====
-- Walks along a format: that they go on with less of it, and so come to an end.
use archa_os.Base.{
  ℕ, ◌<◌, ◌≡◌, refl, Bool, true, false, ltb, if◌then◌else◌, List, [], ◌∷◌, Option, some, ◌∙◌, sym,
  length, arith,
}
use mathlib.Core.Option.{some-injective}
use archa_os.Stdio.{
  Arg, word, text, Walk, done, past_end, bad_argument, more, follow, with_word, with_text,
  step_over,
}

module _ {S : Type 0} where
  -- The walk goes on with a shorter format.
  unfoldable pub shrinks : Walk S → ℕ → Bool
  shrinks (more rest args s) n = ltb (length rest) n
  shrinks _ n = true

  pub shrinks-with_word :
      (args : List Arg) (f : ℕ → List Arg → Walk S) (n : ℕ)
      → ((value : ℕ) (args' : List Arg) → shrinks (f value args') n ≡ true)
      → shrinks (with_word args f) n ≡ true
  unfolding shrinks
  shrinks-with_word [] f n h = refl
  shrinks-with_word (word value ∷ args) f n h = h value args
  shrinks-with_word (text t ∷ args) f n h = refl

  pub shrinks-with_text :
      (args : List Arg) (f : List ℕ → List Arg → Walk S) (n : ℕ)
      → ((t : List ℕ) (args' : List Arg) → shrinks (f t args') n ≡ true)
      → shrinks (with_text args f) n ≡ true
  unfolding shrinks
  shrinks-with_text [] f n h = refl
  shrinks-with_text (word value ∷ args) f n h = refl
  shrinks-with_text (text t ∷ args) f n h = h t args

  pub shrinks-more :
      (rest : List ℕ) (args : List Arg) (s : S) (n : ℕ)
      → length rest < n
      → shrinks (more rest args s) n ≡ true
  unfolding shrinks
  shrinks-more rest args s n h = ground arith

  pub shrinks-step_over :
      (rest : List ℕ) (args : List Arg) (s : S) (n : ℕ)
      → length rest < n
      → shrinks (step_over rest args s) n ≡ true
  unfolding shrinks
  shrinks-step_over [] args s n h = refl
  shrinks-step_over (c ∷ rest) args s n h = ground arith

  pub either :
      (b : Bool) (v w : Walk S) (n : ℕ)
      → shrinks v n ≡ true
      → shrinks w n ≡ true
      → shrinks (if b then v else w) n ≡ true
  either true v w n hv hw = hv
  either false v w n hv hw = hw

  -- A round that goes on with a shorter format ends when the rounds behind it do.
  pub ended :
      (round : Walk S) (next : List ℕ → List Arg → S → Option (Walk S)) (n : ℕ)
      → shrinks round n ≡ true
      → ((rest : List ℕ) (args : List Arg) (s : S)
          → length rest < n
          → (w : Walk S) × (next rest args s ≡ some w))
      → (w : Walk S) × (follow round next ≡ some w)
  unfolding shrinks
  ended (done s) next n shorter after = (done s, refl)
  ended past_end next n shorter after = (past_end, refl)
  ended bad_argument next n shorter after = (bad_argument, refl)
  ended (more rest args s) next n shorter after = after rest args s (ground arith)

  pub agreed :
      (round : Walk S) (next next' : List ℕ → List Arg → S → Option (Walk S)) (w w' : Walk S)
      → ((rest : List ℕ) (args : List Arg) (s : S)
          → next rest args s ≡ some w
          → next' rest args s ≡ some w'
          → w ≡ w')
      → follow round next ≡ some w
      → follow round next' ≡ some w'
      → w ≡ w'
  agreed (done s) next next' w w' after e e' = some-injective w w' (sym e ∙ e')
  agreed past_end next next' w w' after e e' = some-injective w w' (sym e ∙ e')
  agreed bad_argument next next' w w' after e e' = some-injective w w' (sym e ∙ e')
  agreed (more rest args s) next next' w w' after e e' = after rest args s e e'
