-- ===== src/Console.antt =====
-- lib/console-printf.c: the buffer between the formatter and the firmware's console. The formatter,
-- _printf_engine, is a parameter: the strings that it hands to the callback.
pub mod Lines
pub mod Examples
use gigaboot20x.Base.{
  get_or-append, set-append, ltb, leb, ◌==◌, if◌then◌else◌, ltb→lt, lt→ltb, le→ltb, ltb→le, ==-refl,
  ==→eq, ne→==, tests, Bool-cases, Option-cases, ◌>>=◌, ◌>>◌, length, get_or, set, take, drop,
  replicate, length-append, length-take, length-drop, length-replicate, length-set, take-append,
  drop-append, take-length, take-append-drop, All, All-append, u8, u16, u32, u64, byte_at, slice,
  le16, le32, u16_at, u32_at, IsBytes, ℕ, zero, suc, ◌+◌, ◌-◌, ◌*◌, ◌/◌, ◌%◌, ◌^◌, ◌≤◌, ◌<◌, ◌≡◌,
  refl, sym, ap, ap₂, ◌∙◌, ◌≢◌, ◌↔◌, ◌⊎◌, inl, inr, Bool, true, false, not, ◌&&◌, ◌||◌, Option,
  none, some, List, [], ◌∷◌, ◌++◌, map, append-nil, append_assoc, arith,
}

abbrev pub pcbufmax : ℕ
pcbufmax = 126

-- A `char` is signed: it is sign-extended to the CHAR16 of the buffer.
abbrev pub char16 : ℕ → ℕ
char16 c = if ltb c 128 then c else 0xFF00 + c

-- The first `off` elements of `buf`, and the strings that OutputString has been called with.
pub record PcState : Type 0 where
  pub buf : List ℕ
  pub shown : List (List ℕ)

-- `if (*str == '\n') buf[i++] = '\r'; buf[i++] = *str++;`
abbrev pub push_char : ℕ → List ℕ → List ℕ
push_char c buf = if c == 10 then buf ++ 13 ∷ char16 c ∷ [] else buf ++ char16 c ∷ []

-- One round of the loop.
pub put_char : ℕ → PcState → PcState
put_char c s =
    let buf = push_char c s.buf in
    if leb pcbufmax (length buf)
    then record { buf = []; shown = s.shown ++ buf ∷ [] }
    else record s { buf = buf }

-- _printf_console_out
pub console_out : List ℕ → PcState → PcState
unfolding put_char
console_out [] s = s
console_out (c ∷ str) s = console_out str (put_char c s)

-- The calls of the callback by the formatter.
pub engine_output : List (List ℕ) → PcState → PcState
unfolding console_out
engine_output [] s = s
engine_output (str ∷ strs) s = engine_output strs (console_out str s)

-- `if (state.off)`
pub flush : PcState → PcState
flush s = if length s.buf == 0 then s else record { buf = []; shown = s.shown ++ s.buf ∷ [] }

-- _printf
pub printf : List (List ℕ) → List (List ℕ) → PcState
unfolding engine_output flush
printf strs shown = flush (engine_output strs (record { buf = []; shown = shown }))
