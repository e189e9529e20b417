-- ===== src/Base64/Encode.antt =====
-- `f_b64_ntop` against the format.
use native.Mathlib.Decide.{dec_le}
use league_ranker.Prelude.{
  drop, append_assoc, get_or, ℕ, ◌+◌, ◌*◌, ◌/◌, ◌%◌, ◌^◌, ◌≡◌, ◌≤◌, ◌<◌, refl, ap, ap₂, ◌∙◌, none,
  some, List, [], ◌∷◌, ◌++◌, length, map, arith, All, length-append,
}
use league_ranker.Prelude.Memory.{write_at, write_at-append, write_at-eq}
use league_ranker.Base64.{char, pad, minus_one, output, store4, terminate, ntop_from, ntop}
use league_ranker.Base64.Format.{IsByte, encoded, output-digits, length-encoded}

store4-fits :
    (chars target : List ℕ) (targsize k : ℕ)
    → targsize < 2 ^ 63
    → k + 4 ≤ targsize
    → store4 chars target targsize k ≡ some (write_at target k chars, k + 4)
unfolding store4
store4-fits chars target targsize k small room = ground arith

store4-full :
    (chars target : List ℕ) (targsize k : ℕ)
    → k < 2 ^ 63
    → targsize < k + 4
    → store4 chars target targsize k ≡ none
unfolding store4
store4-full chars target targsize k small room = ground arith

-- The characters of `src` and a NUL are stored from `k` on, and counted but for the NUL.
abbrev stored : List ℕ → List ℕ → ℕ → ℕ × List ℕ
stored chars target k = ((k + length chars) % 2 ^ 32, write_at target k (chars ++ (0 ∷ [])))

terminated :
    (target : List ℕ) (targsize k : ℕ)
    → k < targsize
    → terminate target targsize k ≡ stored [] target k
unfolding terminate write_at
terminated target targsize k h = ground arith

-- Four characters in front of what is stored.
stored-append :
    (w x y z : ℕ) (chars target : List ℕ) (k : ℕ)
    → stored chars (write_at target k (w ∷ x ∷ y ∷ z ∷ [])) (k + 4)
      ≡ stored (w ∷ x ∷ y ∷ z ∷ chars) target k
stored-append w x y z chars target k =
    ap₂ (λ n m. (n % 2 ^ 32, m)) (omega arith)
      (write_at-append target k (w ∷ x ∷ y ∷ z ∷ []) (chars ++ (0 ∷ [])))

-- The last group of one or two bytes.
finish : List ℕ → List ℕ → ℕ → ℕ → ℕ × List ℕ
finish chars target targsize k = elim (store4 chars target targsize k) [
  | none ↦ (minus_one, target)
  | some (target', k') ↦ terminate target' targsize k'
]

finish-fits :
    (w x y z : ℕ) (target : List ℕ) (targsize k : ℕ)
    → targsize < 2 ^ 63
    → k + 4 < targsize
    → finish (w ∷ x ∷ y ∷ z ∷ []) target targsize k ≡ stored (w ∷ x ∷ y ∷ z ∷ []) target k
unfolding finish
finish-fits w x y z target targsize k small room =
    rw (finish, store4-fits (w ∷ x ∷ y ∷ z ∷ []) target targsize k small (omega arith))
      (terminated _ targsize (k + 4) (omega arith) ∙ stored-append w x y z [] target k)

finish-full :
    (chars target : List ℕ) (targsize k : ℕ)
    → k + 4 < 2 ^ 63
    → targsize ≤ k + 4
    → (finish chars target targsize k).0 ≡ minus_one
unfolding finish store4 terminate
finish-full chars target targsize k small room = ground arith

ntop_from-fits :
    (src target : List ℕ) (targsize k : ℕ)
    → All IsByte src
    → targsize < 2 ^ 63
    → k + length (encoded src) < targsize
    → ntop_from src target targsize k ≡ stored (encoded src) target k
unfolding ntop_from encoded finish
ntop_from-fits (a ∷ b ∷ c ∷ src) target targsize k h small room =
    let chars = map char (output a b c) in
    rw (ntop_from, store4-fits chars target targsize k small (omega arith))
      (ntop_from-fits src (write_at target k chars) targsize (k + 4) h.1.1.1 small (omega arith)
        ∙ stored-append _ _ _ _ (encoded src) target k
        ∙ ap (λ out. stored (map char out ++ encoded src) target k)
            (output-digits a b c h.0 h.1.0 h.1.1.0))
ntop_from-fits (a ∷ b ∷ []) target targsize k h small room =
    finish-fits _ _ _ _ target targsize k small (omega arith)
    ∙ ap
        (λ out.
          stored (char (get_or out 0 0) ∷ char (get_or out 1 0) ∷ char (get_or out 2 0) ∷ pad ∷ [])
            target k)
        (output-digits a b 0 h.0 h.1.0 (omega arith))
ntop_from-fits (a ∷ []) target targsize k h small room =
    finish-fits _ _ _ _ target targsize k small (omega arith)
    ∙ ap (λ out. stored (char (get_or out 0 0) ∷ char (get_or out 1 0) ∷ pad ∷ pad ∷ []) target k)
        (output-digits a 0 0 h.0 (omega arith) (omega arith))
ntop_from-fits [] target targsize k h small room = terminated target targsize k (omega arith)

ntop_from-full :
    (src target : List ℕ) (targsize k : ℕ)
    → k + length (encoded src) < 2 ^ 63
    → targsize ≤ k + length (encoded src)
    → (ntop_from src target targsize k).0 ≡ minus_one
unfolding ntop_from encoded finish terminate
ntop_from-full (a ∷ b ∷ c ∷ src) target targsize k small room =
    let chars = map char (output a b c) in
    elim (dec_le (k + 4) targsize) [
      | yes le ↦
          rw (ntop_from, store4-fits chars target targsize k (omega arith) le)
            (ntop_from-full src (write_at target k chars) targsize (k + 4) (omega arith)
              (omega arith))
      | no gt ↦ rw (ntop_from, store4-full chars target targsize k (omega arith) (omega arith)) refl
    ]
ntop_from-full (a ∷ b ∷ []) target targsize k small room =
    finish-full _ target targsize k (omega arith) (omega arith)
ntop_from-full (a ∷ []) target targsize k small room =
    finish-full _ target targsize k (omega arith) (omega arith)
ntop_from-full [] target targsize k small room = ground arith

-- Where the characters and a NUL fit, `f_b64_ntop` stores them from the start of the target on,
-- leaves the memory behind them as it was, and returns their number.
pub ntop_fits :
    (src target : List ℕ) (targsize : ℕ)
    → All IsByte src
    → targsize < 2 ^ 31
    → targsize ≤ length target
    → length (encoded src) < targsize
    → ntop src target targsize
      ≡ (length (encoded src), encoded src ++ (0 ∷ drop (length (encoded src) + 1) target))
unfolding ntop
ntop_fits src target targsize h small holds room =
    ntop_from-fits src target targsize 0 h (omega arith) (omega arith)
    ∙ ap₂ (λ (n : ℕ) m. (n, m)) (omega arith)
        (write_at-eq target 0 (encoded src ++ (0 ∷ []))
            (omega (arith, length-append (encoded src) (0 ∷ [])))
          ∙ append_assoc (encoded src) (0 ∷ []) _
          ∙ ap (λ n. encoded src ++ (0 ∷ drop n target))
              (omega (arith, length-append (encoded src) (0 ∷ []))))

-- Where they do not fit, it returns -1. The number of characters is that of the groups of three
-- bytes, the last one perhaps cut short, times four.
pub ntop_full :
    (src target : List ℕ) (targsize : ℕ)
    → length src < 2 ^ 32
    → targsize ≤ (length src + 2) / 3 * 4
    → (ntop src target targsize).0 ≡ minus_one
unfolding ntop
ntop_full src target targsize small room =
    ntop_from-full src target targsize 0 (omega (arith, length-encoded src))
      (omega (arith, length-encoded src))
