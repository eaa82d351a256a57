-- ===== src/Console/Lines.antt =====
-- What reaches the console, and how long each piece is.
use gigaboot20x.Base.{
  leb, ◌==◌, if◌then◌else◌, ==→eq, Bool-cases, length, length-append, All, All-append, ℕ, ◌+◌, ◌≤◌,
  ◌<◌, ◌≡◌, refl, sym, ap, ◌∙◌, inl, inr, true, List, [], ◌∷◌, ◌++◌, append-nil, append_assoc,
  arith,
}
use gigaboot20x.Console.{
  pcbufmax, char16, PcState, push_char, put_char, console_out, engine_output, flush, printf,
}

-- The text with every line end written as "\r\n".
abbrev with_returns : List ℕ → List ℕ
with_returns [] = []
with_returns (c ∷ str) = if c == 10 then 13 ∷ 10 ∷ with_returns str else char16 c ∷ with_returns str

abbrev pub joined : List (List ℕ) → List ℕ
joined [] = []
joined (xs ∷ xss) = xs ++ joined xss

-- All that was written, shown or not.
abbrev written : PcState → List ℕ
written s = joined s.shown ++ s.buf

-- The buffer has 128 elements, and one is for the final 0.
abbrev pub IsShort : List ℕ → Type 0
IsShort str = length str ≤ 127

-- Room for two more characters and a 0.
pub record IsPcState (s : PcState) : Type 0 where
  pub room : length s.buf < pcbufmax
  pub short : All IsShort s.shown

length-push_char : (c : ℕ) (buf : List ℕ) → length (push_char c buf) ≤ length buf + 2
length-push_char c buf =
    ground (arith, length-append buf (13 ∷ char16 c ∷ []), length-append buf (char16 c ∷ []))

put_char-IsPcState : (c : ℕ) (s : PcState) → IsPcState s → IsPcState (put_char c s)
unfolding put_char
put_char-IsPcState c s v =
    let long = length-push_char c s.buf in
    elim (Bool-cases (leb pcbufmax (length (push_char c s.buf)))) [
      | inl full ↦ rw full (record {
        room = omega arith;
        short =
            All-append IsShort s.shown (push_char c s.buf ∷ []) v.short
              (omega (arith, long, v.room), tt);
      })
      | inr space ↦ rw space (record { room = ground (arith, space); short = v.short })
    ]

joined-append : (xss yss : List (List ℕ)) → joined (xss ++ yss) ≡ joined xss ++ joined yss
joined-append [] yss = refl
joined-append (xs ∷ xss) yss =
    ap (λ t. xs ++ t) (joined-append xss yss) ∙ sym (append_assoc xs (joined xss) (joined yss))

-- Handing the buffer over writes nothing and loses nothing.
hand_over :
    (shown : List (List ℕ)) (buf : List ℕ) → joined (shown ++ buf ∷ []) ++ [] ≡ joined shown ++ buf
hand_over shown buf =
    append-nil _ ∙ joined-append shown (buf ∷ []) ∙ ap (λ t. joined shown ++ t) (append-nil buf)

push_char-with_returns :
    (c : ℕ) (buf str : List ℕ) → push_char c buf ++ with_returns str ≡ buf ++ with_returns (c ∷ str)
push_char-with_returns c buf str = elim (Bool-cases (c == 10)) [
  | inl line_end ↦
      let ten : c ≡ 10 = ==→eq c 10 line_end in
      rw ten (append_assoc buf (13 ∷ 10 ∷ []) (with_returns str))
  | inr other ↦ rw other (append_assoc buf (char16 c ∷ []) (with_returns str))
]

written-put_char :
    (c : ℕ) (s : PcState) → written (put_char c s) ≡ joined s.shown ++ push_char c s.buf
unfolding put_char
written-put_char c s = elim (Bool-cases (leb pcbufmax (length (push_char c s.buf)))) [
  | inl full ↦ rw full (hand_over s.shown (push_char c s.buf))
  | inr space ↦ rw space
]

written-console_out :
    (str : List ℕ) (s : PcState) → written (console_out str s) ≡ written s ++ with_returns str
unfolding console_out
written-console_out [] s = sym (append-nil (written s))
written-console_out (c ∷ str) s =
    written-console_out str (put_char c s)
    ∙ ap (λ t. t ++ with_returns str) (written-put_char c s)
    ∙ append_assoc (joined s.shown) (push_char c s.buf) (with_returns str)
    ∙ ap (λ t. joined s.shown ++ t) (push_char-with_returns c s.buf str)
    ∙ sym (append_assoc (joined s.shown) s.buf (with_returns (c ∷ str)))

console_out-IsPcState : (str : List ℕ) (s : PcState) → IsPcState s → IsPcState (console_out str s)
unfolding console_out
console_out-IsPcState [] s v = v
console_out-IsPcState (c ∷ str) s v =
    console_out-IsPcState str (put_char c s) (put_char-IsPcState c s v)

with_returns-append :
    (xs ys : List ℕ) → with_returns (xs ++ ys) ≡ with_returns xs ++ with_returns ys
with_returns-append [] ys = refl
with_returns-append (x ∷ xs) ys = elim (Bool-cases (x == 10)) [
  | inl line_end ↦ rw line_end (ap (λ t. 13 ∷ 10 ∷ t) (with_returns-append xs ys))
  | inr other ↦ rw other (ap (λ t. char16 x ∷ t) (with_returns-append xs ys))
]

written-engine_output :
    (strs : List (List ℕ)) (s : PcState)
    → written (engine_output strs s) ≡ written s ++ with_returns (joined strs)
unfolding engine_output
written-engine_output [] s = sym (append-nil (written s))
written-engine_output (str ∷ strs) s =
    written-engine_output strs (console_out str s)
    ∙ ap (λ t. t ++ with_returns (joined strs)) (written-console_out str s)
    ∙ append_assoc (written s) (with_returns str) (with_returns (joined strs))
    ∙ ap (λ t. written s ++ t) (sym (with_returns-append str (joined strs)))

engine_output-IsPcState :
    (strs : List (List ℕ)) (s : PcState) → IsPcState s → IsPcState (engine_output strs s)
unfolding engine_output
engine_output-IsPcState [] s v = v
engine_output-IsPcState (str ∷ strs) s v =
    engine_output-IsPcState strs (console_out str s) (console_out-IsPcState str s v)

nil_of_length : (buf : List ℕ) → (length buf == 0) ≡ true → buf ≡ []
nil_of_length [] e = refl
nil_of_length (c ∷ buf) e = absurd (ground (arith, e))

joined-flush : (s : PcState) → joined (flush s).shown ≡ written s
unfolding flush
joined-flush s = elim (Bool-cases (length s.buf == 0)) [
  | inl empty ↦
      let none_left = nil_of_length s.buf empty in
      rw (empty, none_left) (sym (append-nil (joined s.shown)))
  | inr some_left ↦ rw some_left (sym (append-nil _) ∙ hand_over s.shown s.buf)
]

flush-IsShort : (s : PcState) → IsPcState s → All IsShort (flush s).shown
unfolding flush
flush-IsShort s v = elim (Bool-cases (length s.buf == 0)) [
  | inl empty ↦ rw empty v.short
  | inr some_left ↦
      rw some_left (All-append IsShort s.shown (s.buf ∷ []) v.short (omega (arith, v.room), tt))
]

-- Where the strings shown before have at most 127 characters each, _printf shows the formatter's
-- output behind them with "\r\n" for every "\n", in strings of at most 127 characters, which with
-- their final 0 fit the buffer of 128.
pub printf_lem :
    (strs shown : List (List ℕ))
    → All IsShort shown
    → (joined (printf strs shown).shown ≡ joined shown ++ with_returns (joined strs))
      × All IsShort (printf strs shown).shown
unfolding printf
printf_lem strs shown short =
    let start : PcState = record { buf = []; shown = shown } in
    (
      joined-flush (engine_output strs start)
          ∙ written-engine_output strs start
          ∙ ap (λ t. t ++ with_returns (joined strs)) (append-nil (joined shown)),
      flush-IsShort (engine_output strs start)
          (engine_output-IsPcState strs start (record { room = omega arith; short = short })),
    )
