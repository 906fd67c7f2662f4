-- ===== src/Console/Conversions.antt =====
-- The conversions of `printf` of student-distrib/lib.c, where the arguments fit.
use virtual_operating_system.Prelude.{
  ℕ, ◌≤◌, ◌<◌, ◌^◌, Bool, true, false, Option, none, some, List, [], ◌∷◌, ◌++◌, ◌≡◌, some_eq, refl,
  ◌∙◌, ==_iff, inl, inr, ◌==◌, Bool-cases, if◌then◌else◌, ◌>>=◌, arith,
}
use virtual_operating_system.Strings.Laws.{NoNul}
use virtual_operating_system.Strings.Numbers.Digits.{Digits}
use virtual_operating_system.Strings.Numbers.Numerals.{Shows}
use virtual_operating_system.Console.Output.{Console, puts}
use virtual_operating_system.Console.Isolation.{CursorsValid}
use virtual_operating_system.Console.Total.{NoBackspace, putc_total, puts_total}
use virtual_operating_system.Console.Printf.{Arg, word, text, convert}
use virtual_operating_system.Console.Numbers.{
  convert_number, c_string_lem, ShowsSigned, ShowsAligned,
}

-- What a conversion leaves of the arguments, where it fits them.
abbrev pub rest_of : Bool → ℕ → List Arg → Option (List Arg)
rest_of alternate c [] =
    if c == b'x'
    then none
    else if c == b'u'
    then none
    else if c == b'd'
    then none
    else if c == b'c'
    then none
    else if c == b's'
    then none
    else some []
rest_of alternate c (word v ∷ args) =
    if c == b'x'
    then some args
    else if c == b'u'
    then some args
    else if c == b'd'
    then some args
    else if c == b'c'
    then none
    else if c == b's'
    then none
    else some (word v ∷ args)
rest_of alternate c (text s ∷ args) =
    if c == b'x'
    then none
    else if c == b'u'
    then none
    else if c == b'd'
    then none
    else if c == b'c'
    then none
    else if c == b's'
    then some args
    else some (text s ∷ args)

-- Words of 32 bits, and strings that end and have no backspaces.
abbrev pub Printable : List Arg → Type 0
Printable [] = Unit {0}
Printable (word v ∷ args) = (v < 2 ^ 32) × Printable args
Printable (text s ∷ args) =
    ((t : List ℕ) × (rest : List ℕ) × (s ≡ t ++ (0 ∷ rest)) × NoNul t × NoBackspace t)
    × Printable args

pub Digits-NoBackspace : (radix : ℕ) (s : List ℕ) → radix ≤ 16 → Digits radix s → NoBackspace s
Digits-NoBackspace radix [] h d = tt
Digits-NoBackspace radix (c ∷ s) h d =
    ((λ q. omega (arith, q, d.0.0)), Digits-NoBackspace radix s h d.1)

Signed-NoBackspace : (v : ℕ) (s : List ℕ) → ShowsSigned v s → NoBackspace s
Signed-NoBackspace v s h = elim h [
  | inl low ↦ Digits-NoBackspace 10 s (omega arith) low.1.digits
  | inr high ↦
      let (_, (t, e, shows)) = high in
      rw e ((λ q. omega (arith, q)), Digits-NoBackspace 10 t (omega arith) shows.digits)
]

-- The text of a conversion other than `%`: a numeral of the word, or the string up to its NUL.
abbrev pub Argument : Bool → ℕ → List Arg → List ℕ → Type 0
Argument alternate c [] s = s ≡ []
Argument alternate c (word v ∷ args) s =
    if c == b'x'
    then if alternate then ShowsAligned v s else Shows 16 v s
    else if c == b'u'
    then Shows 10 v s
    else if c == b'd'
    then ShowsSigned v s
    else s ≡ []
Argument alternate c (text t ∷ args) s =
    if c == b's' then ((rest : List ℕ) × (t ≡ s ++ (0 ∷ rest)) × NoNul s) else s ≡ []

abbrev pub Converted : Bool → ℕ → List Arg → List ℕ → Type 0
Converted alternate c args s = if c == b'%' then s ≡ b'%' ∷ [] else Argument alternate c args s

-- What a conversion does: it outputs its text.
pub record Converts (alternate : Bool) (c : ℕ) (args rest : List Arg) (k : Console) : Type 0 where
  pub out : List ℕ
  pub after : Console
  pub run : convert alternate c args k ≡ some (rest, after)
  pub converted : Converted alternate c args out
  pub output : puts out k ≡ some after
  pub cursors : CursorsValid after

-- Text that is shown is shown in full.
shown_text :
    (alternate : Bool) (c : ℕ) (args rest : List Arg) (s : List ℕ) (k : Console)
    → convert alternate c args k ≡ (puts s k >>= λ k'. some (rest, k'))
    → Converted alternate c args s
    → NoBackspace s
    → CursorsValid k
    → Converts alternate c args rest k
shown_text alternate c args rest s k e t b v =
    let (k', run, w) = puts_total s k v b in
    record { out = s; after = k'; run = e ∙ rw run refl; converted = t; output = run; cursors = w }

-- A word is shown in base 16 by `x`, and in base 10 by `u` and `d`.
module _ (w : ℕ) (args : List Arg) (k : Console) (small : w < 2 ^ 32) (v : CursorsValid k) where
  shown_hex : (alternate : Bool) → Converts alternate b'x' (word w ∷ args) args k
  shown_hex false =
      let ((s, h, e), _, _, _) = convert_number w args k small in
      shown_text false b'x' (word w ∷ args) args s k e h
        (Digits-NoBackspace 16 s (omega arith) h.digits) v
  shown_hex true =
      let (_, _, _, (s, h, e)) = convert_number w args k small in
      shown_text true b'x' (word w ∷ args) args s k e h
        (Digits-NoBackspace 16 s (omega arith) h.digits) v

  shown_unsigned : (alternate : Bool) → Converts alternate b'u' (word w ∷ args) args k
  unfolding convert
  shown_unsigned alternate =
      let (_, (s, h, e), _, _) = convert_number w args k small in
      shown_text alternate b'u' (word w ∷ args) args s k e h
        (Digits-NoBackspace 10 s (omega arith) h.digits) v

  shown_signed : (alternate : Bool) → Converts alternate b'd' (word w ∷ args) args k
  unfolding convert
  shown_signed alternate =
      let (_, _, (s, h, e), _) = convert_number w args k small in
      shown_text alternate b'd' (word w ∷ args) args s k e h (Signed-NoBackspace w s h) v

nothing_shown :
    (alternate : Bool) (c : ℕ) (args : List Arg)
    → (c == b'x') ≡ false
    → (c == b'u') ≡ false
    → (c == b'd') ≡ false
    → (c == b's') ≡ false
    → Argument alternate c args []
nothing_shown alternate c [] x u d s = refl
nothing_shown alternate c (word v ∷ args) x u d s = rw (x, u, d) refl
nothing_shown alternate c (text t ∷ args) x u d s = rw s refl

-- A conversion that is none, or a `%`, takes no argument.
other_total :
    (alternate : Bool) (c : ℕ) (args : List Arg) (k : Console)
    → (c == b'x') ≡ false
    → (c == b'u') ≡ false
    → (c == b'd') ≡ false
    → (c == b'c') ≡ false
    → (c == b's') ≡ false
    → CursorsValid k
    → Converts alternate c args args k
unfolding convert puts
other_total alternate c args k x u d ch s v = elim (Bool-cases (c == b'%')) [
  | inl e ↦
      let (k', run, w) = putc_total b'%' k v (λ q. omega (arith, q)) in
      record {
        out = b'%' ∷ [];
        after = k';
        run = rw (e, run) refl;
        converted = rw e refl;
        output = rw run refl;
        cursors = w;
      }
  | inr e ↦ record {
    out = [];
    after = k;
    run = rw (e, x, u, d, ch, s) refl;
    converted = rw e (nothing_shown alternate c args x u d s);
    output = refl;
    cursors = v;
  }
]

convert_word :
    (alternate : Bool) (c w : ℕ) (args rest : List Arg) (k : Console)
    → rest_of alternate c (word w ∷ args) ≡ some rest
    → Printable (word w ∷ args)
    → CursorsValid k
    → Converts alternate c (word w ∷ args) rest k × Printable rest
convert_word alternate c w args rest k h p v = elim (Bool-cases (c == b'x')) [
  | inl x ↦
      let same : args ≡ rest = some_eq (rw x at h) in
      let at : c ≡ b'x' = (==_iff c b'x').0 x in
      rw (at, ← same) (shown_hex w args k p.0 v alternate, p.1)
  | inr nx ↦ elim (Bool-cases (c == b'u')) [
    | inl u ↦
        let same : args ≡ rest = some_eq (rw (nx, u) at h) in
        let at : c ≡ b'u' = (==_iff c b'u').0 u in
        rw (at, ← same) (shown_unsigned w args k p.0 v alternate, p.1)
    | inr nu ↦ elim (Bool-cases (c == b'd')) [
      | inl d ↦
          let same : args ≡ rest = some_eq (rw (nx, nu, d) at h) in
          let at : c ≡ b'd' = (==_iff c b'd').0 d in
          rw (at, ← same) (shown_signed w args k p.0 v alternate, p.1)
      | inr nd ↦
          let nc : (c == b'c') ≡ false = ground (arith, h) in
          let ns : (c == b's') ≡ false = ground (arith, h) in
          let same : word w ∷ args ≡ rest = some_eq (rw (nx, nu, nd, nc, ns) at h) in
          rw (← same) (other_total alternate c (word w ∷ args) k nx nu nd nc ns v, p)
    ]
  ]
]

convert_text :
    (alternate : Bool) (c : ℕ) (s : List ℕ) (args rest : List Arg) (k : Console)
    → rest_of alternate c (text s ∷ args) ≡ some rest
    → Printable (text s ∷ args)
    → CursorsValid k
    → Converts alternate c (text s ∷ args) rest k × Printable rest
unfolding convert
convert_text alternate c s args rest k h p v =
    let nx : (c == b'x') ≡ false = ground (arith, h) in
    let nu : (c == b'u') ≡ false = ground (arith, h) in
    let nd : (c == b'd') ≡ false = ground (arith, h) in
    let nc : (c == b'c') ≡ false = ground (arith, h) in
    elim (Bool-cases (c == b's')) [
      | inl at ↦
          let same : args ≡ rest = some_eq (rw (nx, nu, nd, nc, at) at h) in
          let here : c ≡ b's' = (==_iff c b's').0 at in
          let ((t, tail, e, z, b), more) = p in
          rw (here, ← same)
            (
              shown_text alternate b's' (text s ∷ args) args t k
                  (rw (e, c_string_lem t tail z) refl) (tail, e, z) b v,
              more,
            )
      | inr ns ↦
          let same : text s ∷ args ≡ rest = some_eq (rw (nx, nu, nd, nc, ns) at h) in
          rw (← same) (other_total alternate c (text s ∷ args) k nx nu nd nc ns v, p)
    ]

pub convert_total :
    (alternate : Bool) (c : ℕ) (args rest : List Arg) (k : Console)
    → rest_of alternate c args ≡ some rest
    → Printable args
    → CursorsValid k
    → Converts alternate c args rest k × Printable rest
convert_total alternate c [] rest k h p v =
    let nx : (c == b'x') ≡ false = ground (arith, h) in
    let nu : (c == b'u') ≡ false = ground (arith, h) in
    let nd : (c == b'd') ≡ false = ground (arith, h) in
    let nc : (c == b'c') ≡ false = ground (arith, h) in
    let ns : (c == b's') ≡ false = ground (arith, h) in
    let same : [] ≡ rest = some_eq (rw (nx, nu, nd, nc, ns) at h) in
    rw (← same) (other_total alternate c [] k nx nu nd nc ns v, p)
convert_total alternate c (word w ∷ args) rest k h p v =
    convert_word alternate c w args rest k h p v
convert_total alternate c (text s ∷ args) rest k h p v =
    convert_text alternate c s args rest k h p v
