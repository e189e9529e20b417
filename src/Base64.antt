-- ===== src/Base64.antt =====
-- ScoreSender/Pods/FirebaseDatabase/Firebase/Database/third_party/SocketRocket/fbase64.c: bytes as
-- base 64 characters, and back.
pub mod Format
pub mod Encode
pub mod Decode
pub mod RoundTrip
pub mod Bounds
mod Tests
use league_ranker.Prelude.{
  ℕ, zero, suc, ◌+◌, ◌-◌, ◌*◌, ◌/◌, ◌%◌, ◌^◌, bit_and, bit_or, Bool, true, false, not, ◌&&◌, ◌||◌,
  Option, none, some, List, [], ◌∷◌, ltb, leb, ◌==◌, if◌then◌else◌, get_or, set, map,
}
use league_ranker.Prelude.Memory.{write_at}

-- `Base64`, and `Pad64`, the character '='.
abbrev pub table : List ℕ
table =
    65 ∷ 66 ∷ 67 ∷ 68 ∷ 69 ∷ 70 ∷ 71 ∷ 72 ∷ 73 ∷ 74 ∷ 75 ∷ 76 ∷ 77 ∷ 78 ∷ 79 ∷ 80 ∷ 81 ∷ 82 ∷ 83
    ∷ 84 ∷ 85 ∷ 86 ∷ 87 ∷ 88 ∷ 89 ∷ 90 ∷ 97 ∷ 98 ∷ 99 ∷ 100 ∷ 101 ∷ 102 ∷ 103 ∷ 104 ∷ 105 ∷ 106
    ∷ 107 ∷ 108 ∷ 109 ∷ 110 ∷ 111 ∷ 112 ∷ 113 ∷ 114 ∷ 115 ∷ 116 ∷ 117 ∷ 118 ∷ 119 ∷ 120 ∷ 121 ∷ 122
    ∷ 48 ∷ 49 ∷ 50 ∷ 51 ∷ 52 ∷ 53 ∷ 54 ∷ 55 ∷ 56 ∷ 57 ∷ 43 ∷ 47 ∷ []

abbrev pub pad : ℕ
pad = 61

abbrev pub char : ℕ → ℕ
char v = get_or table v 0

-- Results are patterns of an `int` of 32 bits.
abbrev pub minus_one : ℕ
minus_one = 2 ^ 32 - 1

-- `output[0]` to `output[3]` for three input bytes.
abbrev pub output : ℕ → ℕ → ℕ → List ℕ
output a b c =
    a / 2 ^ 2
    ∷ (bit_and a 0x03 * 2 ^ 4 + b / 2 ^ 4)
    ∷ (bit_and b 0x0f * 2 ^ 2 + c / 2 ^ 6)
    ∷ bit_and c 0x3f
    ∷ []

-- Four characters, unless they do not fit: the target then, and the new `datalength`.
unfoldable pub store4 : List ℕ → List ℕ → ℕ → ℕ → Option (List ℕ × ℕ)
store4 chars target targsize datalength =
    if ltb targsize ((datalength + 4) % 2 ^ 64)
    then none
    else some (write_at target datalength chars, datalength + 4)

-- The rest of `f_b64_ntop` behind its loop, and the closing NUL.
unfoldable pub terminate : List ℕ → ℕ → ℕ → ℕ × List ℕ
terminate target targsize datalength =
    if leb targsize datalength
    then (minus_one, target)
    else (datalength % 2 ^ 32, set target datalength 0)

-- The loop of `f_b64_ntop` over three bytes at a time, and the padding of one or two more.
unfoldable pub ntop_from : List ℕ → List ℕ → ℕ → ℕ → ℕ × List ℕ
ntop_from (a ∷ b ∷ c ∷ src) target targsize datalength =
    elim (store4 (map char (output a b c)) target targsize datalength) [
      | none ↦ (minus_one, target)
      | some (target', datalength') ↦ ntop_from src target' targsize datalength'
    ]
ntop_from (a ∷ b ∷ []) target targsize datalength =
    let out = output a b 0 in
    let chars = char (get_or out 0 0) ∷ char (get_or out 1 0) ∷ char (get_or out 2 0) ∷ pad ∷ [] in
    elim (store4 chars target targsize datalength) [
      | none ↦ (minus_one, target)
      | some (target', datalength') ↦ terminate target' targsize datalength'
    ]
ntop_from (a ∷ []) target targsize datalength =
    let out = output a 0 0 in
    let chars = char (get_or out 0 0) ∷ char (get_or out 1 0) ∷ pad ∷ pad ∷ [] in
    elim (store4 chars target targsize datalength) [
      | none ↦ (minus_one, target)
      | some (target', datalength') ↦ terminate target' targsize datalength'
    ]
ntop_from [] target targsize datalength = terminate target targsize datalength

-- `f_b64_ntop(src, srclength, target, targsize)`; `src` is the `srclength` bytes.
unfoldable pub ntop : List ℕ → List ℕ → ℕ → ℕ × List ℕ
ntop src target targsize = ntop_from src target targsize 0

-- `isspace` in the C locale.
abbrev pub is_space : ℕ → Bool
is_space ch = (ch == 32) || (leb 9 ch && leb ch 13)

-- `strchr(Base64, ch) - Base64`, for a character other than NUL.
unfoldable pub index_in : List ℕ → ℕ → Option ℕ
index_in [] ch = none
index_in (c ∷ cs) ch =
    let rest = index_in cs ch in
    if c == ch then some 0 else elim rest [ none ↦ none | some i ↦ some (suc i) ]

-- The variables of `f_b64_pton`. A target that is NULL is `none`.
pub record Pton : Type 0 where
  pub target : Option (List ℕ)
  pub tarindex : ℕ
  pub state : ℕ

-- `if (target) { if (full) return (-1); ... }`, and whether the function goes on.
unfoldable pub store : Option (List ℕ) → Bool → (List ℕ → List ℕ) → Bool × Option (List ℕ)
store none full change = (true, none)
store (some t) full change = if full then (false, some t) else (true, some (change t))

-- `target[i] = v` and `target[i] |= v`, of a `u_char`.
abbrev pub assign : ℕ → ℕ → List ℕ → List ℕ
assign i v t = set t i (v % 256)

abbrev pub or_into : ℕ → ℕ → List ℕ → List ℕ
or_into i v t = set t i (bit_or (get_or t i 0) v % 256)

-- The `switch (state)` of the loop. `tarindex` is a `u_int` of 32 bits.
unfoldable pub digit : ℕ → ℕ → Pton → Bool × Pton
unfolding store
digit targsize v p =
    let i = p.tarindex in
    let next = (i + 1) % 2 ^ 32 in
    if p.state == 0
    then (let (go, t) = store p.target (leb targsize i) (assign i (v * 2 ^ 2)) in
        (go, record { target = t; tarindex = i; state = 1 }))
    else if p.state == 1
    then (let (go, t) =
          store p.target (leb targsize next)
            (λ t. assign next (bit_and v 0x0f * 2 ^ 4) (or_into i (v / 2 ^ 4) t)) in
        (go, record { target = t; tarindex = next; state = 2 }))
    else if p.state == 2
    then (let (go, t) =
          store p.target (leb targsize next)
            (λ t. assign next (bit_and v 0x03 * 2 ^ 6) (or_into i (v / 2 ^ 2) t)) in
        (go, record { target = t; tarindex = next; state = 3 }))
    else (let (go, t) = store p.target (leb targsize i) (or_into i v) in
        (go, record { target = t; tarindex = next; state = 0 }))

-- What follows the last '=' must be blank, and the bits that were left over zero.
unfoldable pub blank : List ℕ → Bool
blank [] = true
blank (ch ∷ src) = is_space ch && blank src

unfoldable pub slopped : Pton → Bool
slopped p = elim p.target [ none ↦ false | some t ↦ not (get_or t p.tarindex 0 == 0) ]

unfoldable pub last_pad : List ℕ → Pton → ℕ × Option (List ℕ)
unfolding slopped
last_pad src p =
    if blank src && not (slopped p) then (p.tarindex, p.target) else (minus_one, p.target)

-- State 2, with two '=': spaces may stand before the second.
unfoldable pub second_pad : List ℕ → Pton → ℕ × Option (List ℕ)
second_pad [] p = (minus_one, p.target)
second_pad (ch ∷ src) p =
    let later = second_pad src p in
    if is_space ch then later else if ch == pad then last_pad src p else (minus_one, p.target)

-- Behind the first '='.
unfoldable pub padding : List ℕ → Pton → ℕ × Option (List ℕ)
padding src p =
    if (p.state == 0) || (p.state == 1)
    then (minus_one, p.target)
    else if p.state == 2
    then second_pad src p
    else last_pad src p

-- The loop of `f_b64_pton` over the characters before the NUL, and what comes behind it.
unfoldable pub pton_from : List ℕ → ℕ → Pton → ℕ × Option (List ℕ)
pton_from [] targsize p = (if p.state == 0 then p.tarindex else minus_one, p.target)
pton_from (ch ∷ src) targsize p = elim (is_space ch) [
  | true ↦ pton_from src targsize p
  | false ↦ elim (ch == pad) [
    | true ↦ padding src p
    | false ↦ elim (index_in table ch) [
      | none ↦ (minus_one, p.target)
      | some v ↦
          let (go, q) = digit targsize v p in
          elim go [ true ↦ pton_from src targsize q | false ↦ (minus_one, q.target) ]
    ]
  ]
]

-- `f_b64_pton(src, target, targsize)`
unfoldable pub pton : List ℕ → Option (List ℕ) → ℕ → ℕ × Option (List ℕ)
pton src target targsize =
    pton_from src targsize (record { target = target; tarindex = 0; state = 0 })
