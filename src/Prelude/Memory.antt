-- ===== src/Prelude/Memory.antt =====
-- Bytes stored one by one into memory.
use Prim.Native.Nat.{ℕ, zero, suc, ◌+◌, ◌≤◌}
use mathlib.Core.Path.{◌≡◌, refl, ap, ◌∙◌}
use mathlib.Core.List.{List, [], ◌∷◌, ◌++◌}
use native.Mathlib.Omega.{arith}
use league_ranker.Prelude.Lists.{length, set, take, drop, length-set}

-- `dest[i] = buf[i]` for the bytes of `buf`, from `dest + i` on.
unfoldable pub write_at : List ℕ → ℕ → List ℕ → List ℕ
write_at mem dest [] = mem
write_at mem dest (b ∷ bs) = write_at (set mem dest b) (suc dest) bs

pub length-write_at :
    (mem : List ℕ) (dest : ℕ) (bs : List ℕ) → length (write_at mem dest bs) ≡ length mem
unfolding write_at
length-write_at mem dest [] = refl
length-write_at mem dest (b ∷ bs) =
    length-write_at (set mem dest b) (suc dest) bs ∙ length-set mem dest b

-- Two writes, one behind the other, are one.
pub write_at-append :
    (mem : List ℕ) (dest : ℕ) (xs ys : List ℕ)
    → write_at (write_at mem dest xs) (dest + length xs) ys ≡ write_at mem dest (xs ++ ys)
unfolding write_at
write_at-append mem dest [] ys = ap (λ d. write_at mem d ys) (omega arith)
write_at-append mem dest (x ∷ xs) ys =
    ap (λ d. write_at (write_at (set mem dest x) (suc dest) xs) d ys) (omega arith)
    ∙ write_at-append (set mem dest x) (suc dest) xs ys

write_at_cons :
    (x : ℕ) (mem : List ℕ) (dest : ℕ) (bs : List ℕ)
    → write_at (x ∷ mem) (suc dest) bs ≡ x ∷ write_at mem dest bs
unfolding write_at
write_at_cons x mem dest [] = refl
write_at_cons x mem dest (b ∷ bs) = write_at_cons x (set mem dest b) (suc dest) bs

write_at_start :
    (mem bs : List ℕ) → length bs ≤ length mem → write_at mem 0 bs ≡ bs ++ drop (length bs) mem
unfolding write_at
write_at_start mem [] h = refl
write_at_start [] (b ∷ bs) h = absurd (omega arith)
write_at_start (x ∷ mem) (b ∷ bs) h =
    write_at_cons b mem 0 bs ∙ ap (λ t. b ∷ t) (write_at_start mem bs (omega arith))

suc_add : (a b : ℕ) → suc (a + b) ≡ suc a + b
suc_add a b = omega arith

-- Exactly the cells from `dest` on take the bytes; those before and behind keep theirs.
pub write_at-eq :
    (mem : List ℕ) (dest : ℕ) (bs : List ℕ)
    → dest + length bs ≤ length mem
    → write_at mem dest bs ≡ take dest mem ++ (bs ++ drop (dest + length bs) mem)
write_at-eq mem zero bs h =
    write_at_start mem bs (omega arith) ∙ ap (λ d. bs ++ drop d mem) (omega arith)
write_at-eq [] (suc dest) bs h = absurd (omega arith)
write_at-eq (x ∷ mem) (suc dest) bs h =
    write_at_cons x mem dest bs
    ∙ ap (λ t. x ∷ t) (write_at-eq mem dest bs (omega arith))
    ∙ ap (λ d. x ∷ (take dest mem ++ (bs ++ drop d (x ∷ mem)))) (suc_add dest (length bs))
