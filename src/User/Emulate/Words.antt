-- ===== src/User/Emulate/Words.antt =====
-- How `ece391_execute` of syscalls/ece391emulate.c takes a command apart.
use mathlib.Core.List.{append_assoc, append-nil}
use virtual_operating_system.Prelude.{
  ℕ, zero, suc, ◌<◌, false, Option, none, some, List, [], ◌∷◌, ◌++◌, ◌≡◌, ◌≢◌, ◌⊎◌, inl, inr, refl,
  ap, length, ◌==◌, Bool-cases, if◌then◌else◌, ◌||◌, arith,
}
use virtual_operating_system.Strings.Laws.{NoNul, length-snoc}
use virtual_operating_system.Terminal.Lines.{get_elem?-append}
use virtual_operating_system.User.Emulate.{word_end, blanks_end}

-- The words of a line, with the one that is being read: they end at a space or a newline, and a
-- newline where a word could start ends the line.
abbrev pub words : Option (List ℕ) → List ℕ → List (List ℕ)
words none [] = []
words (some w) [] = w ∷ []
words none (c ∷ s) =
    let next = words none s in
    let word = words (some (c ∷ [])) s in if c == 32 then next else if c == 10 then [] else word
words (some w) (c ∷ s) =
    let next = words none s in
    let word = words (some (w ++ (c ∷ []))) s in if c == 32 || c == 10 then w ∷ next else word

-- Where the blanks in front of `s` end.
pub record Blanks (pre s post : List ℕ) (o : Option ℕ) : Type 0 where
  pub blanks : List ℕ
  pub text : List ℕ
  pub parts : s ≡ blanks ++ text
  pub ends : o ≡ some (length (pre ++ blanks))
  pub same : words none s ≡ words none text
  pub starts : (text ≡ []) ⊎ ((c : ℕ) × (u : List ℕ) × (text ≡ c ∷ u) × (c ≢ 32))

pub blanks_end_lem :
    (s pre post : List ℕ) (r : ℕ)
    → length s < r
    → NoNul s
    → Blanks pre s post (blanks_end r (pre ++ (s ++ (0 ∷ post))) (length pre))
unfolding blanks_end
blanks_end_lem s pre post zero h z = absurd (omega arith)
blanks_end_lem [] pre post (suc r) h z = record {
  blanks = [];
  text = [];
  parts = refl;
  ends = rw (get_elem?-append pre post 0, append-nil) refl;
  same = refl;
  starts = inl refl;
}
blanks_end_lem (c ∷ s) pre post (suc r) h z = elim (Bool-cases (c == 32)) [
  | inl blank ↦
      let b = blanks_end_lem s (pre ++ (c ∷ [])) post r (omega arith) z.1 in
      record {
        blanks = c ∷ b.blanks;
        text = b.text;
        parts = ap (◌∷◌ c) b.parts;
        ends =
            rw (get_elem?-append pre (s ++ (0 ∷ post)) c, blank)
              (rw
                (
                  append_assoc pre (c ∷ []) (s ++ (0 ∷ post)),
                  length-snoc pre c,
                  append_assoc pre (c ∷ []) b.blanks,
                )
                at b.ends);
        same = rw blank b.same;
        starts = b.starts;
      }
  | inr away ↦ record {
    blanks = [];
    text = c ∷ s;
    parts = refl;
    ends = rw (get_elem?-append pre (s ++ (0 ∷ post)) c, away, append-nil) refl;
    same = refl;
    starts = inr (c, s, refl, λ e. absurd (ground (arith, away, e)));
  }
]

-- Where the word at the front of `s` ends, with `w` read before.
pub record Word (pre s post w : List ℕ) (o : Option ℕ) : Type 0 where
  pub word : List ℕ
  pub rest : List ℕ
  pub parts : s ≡ word ++ rest
  pub ends : o ≡ some (length (pre ++ word))
  pub last :
      ((rest ≡ []) × (words (some w) s ≡ (w ++ word) ∷ []))
      ⊎ ((c : ℕ) × (u : List ℕ) × (rest ≡ c ∷ u)
          × (c ≢ 0)
          × (words (some w) s ≡ (w ++ word) ∷ words none u))

pub word_end_lem :
    (s pre post w : List ℕ) (r : ℕ)
    → length s < r
    → NoNul s
    → Word pre s post w (word_end r (pre ++ (s ++ (0 ∷ post))) (length pre))
unfolding word_end
word_end_lem s pre post w zero h z = absurd (omega arith)
word_end_lem [] pre post w (suc r) h z = record {
  word = [];
  rest = [];
  parts = refl;
  ends = rw (get_elem?-append pre post 0, append-nil) refl;
  last = inl (refl, rw append-nil refl);
}
word_end_lem (c ∷ s) pre post w (suc r) h z =
    let nul : (c == 0) ≡ false = ground (arith, z.0) in
    elim (Bool-cases (c == 32 || c == 10)) [
      | inl stop ↦ record {
        word = [];
        rest = c ∷ s;
        parts = refl;
        ends = rw (get_elem?-append pre (s ++ (0 ∷ post)) c, nul, stop, append-nil) refl;
        last = inr (c, s, refl, z.0, rw (stop, append-nil) refl);
      }
      | inr more ↦
          let b = word_end_lem s (pre ++ (c ∷ [])) post (w ++ (c ∷ [])) r (omega arith) z.1 in
          record {
            word = c ∷ b.word;
            rest = b.rest;
            parts = ap (◌∷◌ c) b.parts;
            ends =
                rw (get_elem?-append pre (s ++ (0 ∷ post)) c, nul, more)
                  (rw
                    (
                      append_assoc pre (c ∷ []) (s ++ (0 ∷ post)),
                      length-snoc pre c,
                      append_assoc pre (c ∷ []) b.word,
                    )
                    at b.ends);
            last = rw (more) (rw (append_assoc w (c ∷ []) b.word) at b.last);
          }
    ]
