-- ===== src/Nbserver/Main/Arguments.antt =====
-- The command lines that main of src/nbserver.c takes.
use gigaboot20x.Base.{
  ◌==◌, if◌then◌else◌, Bool-cases, All, ℕ, ◌≡◌, refl, ◌↔◌, inl, inr, Bool, true, false, not, ◌||◌,
  Option, none, some, List, [], ◌∷◌, ◌++◌, arith,
}
use gigaboot20x.Cstring.{head_or_zero}
use gigaboot20x.Nbserver.Main.{is_same, once_option, Options, read_option, read_options, no_options}

is_same→eq : (xs ys : List ℕ) → is_same xs ys ≡ true → xs ≡ ys
unfolding is_same
is_same→eq [] [] e = refl
is_same→eq [] (y ∷ ys) e = cc
is_same→eq (x ∷ xs) [] e = cc
is_same→eq (x ∷ xs) (y ∷ ys) e = ground (arith, is_same→eq xs ys)

is_same_refl : (xs : List ℕ) → is_same xs xs ≡ true
unfolding is_same
is_same_refl [] = refl
is_same_refl (x ∷ xs) = ground (arith, is_same_refl xs)

abbrev is_name : List ℕ → Bool
is_name arg = not (head_or_zero arg == b'-')

-- The arguments that do not start with a dash, and those that do.
abbrev pub names : List (List ℕ) → List (List ℕ)
names [] = []
names (arg ∷ args) = if is_name arg then arg ∷ names args else names args

abbrev pub flags : List (List ℕ) → List (List ℕ)
flags [] = []
flags (arg ∷ args) = if is_name arg then flags args else arg ∷ flags args

abbrev pub is_empty : List (List ℕ) → Bool
is_empty [] = true
is_empty (x ∷ xs) = false

abbrev names_of : Option (List ℕ) → List (List ℕ)
names_of none = []
names_of (some fn) = fn ∷ []

-- One name, and no flag but -1, behind what was read before.
abbrev IsCommand : Options → List (List ℕ) → List ℕ → Bool → Type 0
IsCommand o args fn once =
    (names_of o.file ++ names args ≡ fn ∷ [])
    × All (λ (flag : List ℕ). flag ≡ once_option) (flags args)
    × (once ≡ (o.once || not (is_empty (flags args))))

abbrev options : Option (List ℕ) → Bool → Options
options file once = record { file = file; once = once }

read_name :
    (arg : List ℕ) (o : Bool)
    → is_name arg ≡ true
    → read_option arg (options none o) ≡ some (options (some arg) o)
unfolding read_option
read_name arg o e = rw e

read_second_name :
    (arg fn : List ℕ) (o : Bool) → is_name arg ≡ true → read_option arg (options (some fn) o) ≡ none
unfolding read_option
read_second_name arg fn o e = rw e

read_flag :
    (arg : List ℕ) (file : Option (List ℕ)) (o : Bool)
    → is_name arg ≡ false
    → read_option arg (options file o)
      ≡ (if is_same arg once_option then some (options file true) else none)
unfolding read_option
read_flag arg file o e = rw e

-- The name is the first, and the rest of the arguments has none.
first_name :
    (arg : List ℕ) (args : List (List ℕ)) (file : Option (List ℕ)) (o : Bool) (fn : List ℕ)
    (once : Bool)
    → (read_options args (options (some arg) o) ≡ some (fn, once)
        → IsCommand (options (some arg) o) args fn once)
    → is_name arg ≡ true
    → read_options (arg ∷ args) (options file o) ≡ some (fn, once)
    → (names_of file ++ arg ∷ names args ≡ fn ∷ [])
      × All (λ (flag : List ℕ). flag ≡ once_option) (flags args)
      × (once ≡ (o || not (is_empty (flags args))))
unfolding read_options
first_name arg args none o fn once rest name e = rest (rw (read_name arg o name) at e)
first_name arg args (some f) o fn once rest name e =
    let e' = rw (read_second_name arg f o name) at e in cc

sound :
    (args : List (List ℕ)) (file : Option (List ℕ)) (o : Bool) (fn : List ℕ) (once : Bool)
    → read_options args (options file o) ≡ some (fn, once)
    → IsCommand (options file o) args fn once
unfolding read_options
sound [] none o fn once e = cc
sound [] (some f) o fn once e = ground (arith, e)
sound (arg ∷ args) file o fn once e = elim (Bool-cases (is_name arg)) [
  | inl name ↦
      rw name (first_name arg args file o fn once (λ e. sound args (some arg) o fn once e) name e)
  | inr flag ↦ elim (Bool-cases (is_same arg once_option)) [
    | inl known ↦
        let (a, b, c) = sound args file true fn once (rw (read_flag arg file o flag, known) at e) in
        rw flag (a, (is_same→eq arg once_option known, b), ground (arith, c))
    | inr other ↦ let e' = rw (read_flag arg file o flag, other) at e in cc
  ]
]

complete :
    (args : List (List ℕ)) (file : Option (List ℕ)) (o : Bool) (fn : List ℕ) (once : Bool)
    → IsCommand (options file o) args fn once
    → read_options args (options file o) ≡ some (fn, once)
unfolding read_options
complete [] none o fn once v = cc
complete [] (some f) o fn once v = ground (arith, v.0, v.2)
complete (arg ∷ args) none o fn once v = elim (Bool-cases (is_name arg)) [
  | inl name ↦ rw (read_name arg o name) (complete args (some arg) o fn once (rw name at v))
  | inr flag ↦
      let (a, (b, c), d) = rw flag at v in
      rw (read_flag arg none o flag, b, is_same_refl once_option)
        (complete args none true fn once (a, c, ground (arith, d)))
]
complete (arg ∷ args) (some f) o fn once v = elim (Bool-cases (is_name arg)) [
  | inl name ↦ let v' = rw name at v in absurd (ground (arith, v'.0))
  | inr flag ↦
      let (a, (b, c), d) = rw flag at v in
      rw (read_flag arg (some f) o flag, b, is_same_refl once_option)
        (complete args (some f) true fn once (a, c, ground (arith, d)))
]

-- main takes a command line exactly when one argument does not start with a dash and every other
-- argument is -1: the one is then the name of the file, and `once` says whether there is a -1.
pub read_options_iff :
    (args : List (List ℕ)) (fn : List ℕ) (once : Bool)
    → (read_options args no_options ≡ some (fn, once)) ↔ (
        (names args ≡ fn ∷ [])
        × All (λ (flag : List ℕ). flag ≡ once_option) (flags args)
        × (once ≡ not (is_empty (flags args))))
read_options_iff args fn once = (sound args none false fn once, complete args none false fn once)
