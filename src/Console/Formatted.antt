-- ===== src/Console/Formatted.antt =====
-- `printf` of student-distrib/lib.c ends for every format whose conversions fit the arguments.
use virtual_operating_system.Prelude.{
  ℕ, suc, Bool, true, false, none, some, List, [], ◌∷◌, ◌++◌, ◌≡◌, Option-cases, refl, inl, inr,
  ◌==◌, Bool-cases, if◌then◌else◌, arith,
}
use virtual_operating_system.Console.Output.{Console, puts}
use virtual_operating_system.Console.Isolation.{CursorsValid}
use virtual_operating_system.Console.Total.{putc_total, puts-append}
use virtual_operating_system.Console.Printf.{Arg, Place, plain, behind, printf_from, printf}
use virtual_operating_system.Console.Conversions.{rest_of, Printable, Converted, convert_total}

-- A format that ends in a NUL, shows no backspace, and has conversions that fit the arguments.
abbrev pub fits : Place → List ℕ → List Arg → Bool
fits p [] args = false
fits plain (c ∷ format) args =
    let conversion = fits (behind false) format args in
    let next = fits plain format args in
    if c == 0 then true else if c == b'%' then conversion else if c == 8 then false else next
fits (behind alternate) (c ∷ format) args =
    let aligned = fits (behind true) format args in
    let next : List Arg → Bool = fits plain format in
    if c == b'#'
    then aligned
    else elim (rest_of alternate c args) [ none ↦ false | some rest ↦ next rest ]

-- `t` is the text of a format: its plain characters, and the texts of its conversions, each with the
-- arguments that the ones before it leave.
abbrev pub Prints : Place → List ℕ → List Arg → List ℕ → Type 0
Prints p [] args t = ⊥
Prints plain (c ∷ format) args t =
    let conversion = Prints (behind false) format args t in
    let next = (u : List ℕ) × (t ≡ c ∷ u) × Prints plain format args u in
    if c == 0 then t ≡ [] else if c == b'%' then conversion else next
Prints (behind alternate) (c ∷ format) args t =
    let aligned = Prints (behind true) format args t in
    let next =
      (s : List ℕ) × (u : List ℕ) × (rest : List Arg) × (rest_of alternate c args ≡ some rest)
      × Converted alternate c args s
      × Prints plain format rest u
      × (t ≡ s ++ u) in
    if c == b'#' then aligned else next

-- What `printf_from` does where it ends.
record Ends (p : Place) (format : List ℕ) (args : List Arg) (n : ℕ) (k : Console) : Type 0 where
  out : List ℕ
  result : ℕ × Console
  run : printf_from p format args n k ≡ some result
  prints : Prints p format args out
  output : puts out k ≡ some result.1
  cursors : CursorsValid result.1

printf_from_total :
    (p : Place) (format : List ℕ) (args : List Arg) (n : ℕ) (k : Console)
    → fits p format args ≡ true
    → Printable args
    → CursorsValid k
    → Ends p format args n k
unfolding printf_from puts
printf_from_total p [] args n k h q v = absurd (ground (arith, h))
printf_from_total plain (c ∷ format) args n k h q v = elim (Bool-cases (c == 0)) [
  | inl end ↦ record {
    out = [];
    result = (n, k);
    run = rw end refl;
    prints = rw end refl;
    output = refl;
    cursors = v;
  }
  | inr more ↦ elim (Bool-cases (c == b'%')) [
    | inl sign ↦
        let e = printf_from_total (behind false) format args (suc n) k (rw (more, sign) at h) q v in
        record {
          out = e.out;
          result = e.result;
          run = rw (more, sign, e.run) refl;
          prints = rw (more, sign) e.prints;
          output = e.output;
          cursors = e.cursors;
        }
    | inr shows ↦
        let shown : (c == 8) ≡ false = ground (arith, h) in
        let (k1, run, v1) = putc_total c k v (λ z. absurd (ground (arith, shown, z))) in
        let e =
          printf_from_total plain format args (suc n) k1 (rw (more, shows, shown) at h) q v1 in
        record {
          out = c ∷ e.out;
          result = e.result;
          run = rw (more, shows, run, e.run) refl;
          prints = rw (more, shows) (e.out, refl, e.prints);
          output = rw run e.output;
          cursors = e.cursors;
        }
  ]
]
printf_from_total (behind alternate) (c ∷ format) args n k h q v = elim (Bool-cases (c == b'#')) [
  | inl sharp ↦
      let e = printf_from_total (behind true) format args (suc n) k (rw sharp at h) q v in
      record {
        out = e.out;
        result = e.result;
        run = rw (sharp, e.run) refl;
        prints = rw sharp e.prints;
        output = e.output;
        cursors = e.cursors;
      }
  | inr last ↦ elim (Option-cases (rest_of alternate c args)) [
    | inl misfit ↦ absurd (ground (arith, rw (last, misfit) at h))
    | inr (rest, left) ↦
        let (w, q1) = convert_total alternate c args rest k left q v in
        let e =
          printf_from_total plain format rest (suc n) w.after (rw (last, left) at h) q1 w.cursors in
        record {
          out = w.out ++ e.out;
          result = e.result;
          run = rw (last, w.run, e.run) refl;
          prints = rw last (w.out, e.out, rest, left, w.converted, e.prints, refl);
          output = puts-append w.out e.out k w.after e.result.1 w.output e.output;
          cursors = e.cursors;
        }
  ]
]

-- `printf` prints the text of its format: the plain characters as they are, a numeral of the word for
-- `%x`, `%#x`, `%u` and `%d`, the string for `%s` and a percent sign for `%%`, each with its own
-- argument. It returns, has output that text and nothing else, and leaves every cursor on the screen
-- if it was there before. The conversions fit the arguments, words have 32 bits, and neither the
-- format nor a string has a backspace.
pub printf_total :
    (format : List ℕ) (args : List Arg) (k : Console)
    → fits plain format args ≡ true
    → Printable args
    → CursorsValid k
    → (t : List ℕ) × (r : ℕ × Console) × (printf format args k ≡ some r)
      × Prints plain format args t
      × (puts t k ≡ some r.1)
      × CursorsValid r.1
unfolding printf
printf_total format args k h q v =
    let e = printf_from_total plain format args 0 k h q v in
    (e.out, e.result, e.run, e.prints, e.output, e.cursors)
