-- ===== src/User/Emulate/Splitting.antt =====
-- The loop over the arguments in `ece391_execute` of syscalls/ece391emulate.c.
use mathlib.Core.List.{append_assoc, append-nil}
use virtual_operating_system.Prelude.{
  ℕ, zero, suc, ◌+◌, ◌<◌, true, false, none, some, List, [], ◌∷◌, ◌++◌, ◌≡◌, ◌≢◌, ◌⊎◌, inl, inr,
  refl, ap, ◌∙◌, sym, length, length-append, ◌==◌, Bool-cases, ◌||◌, arith,
}
use virtual_operating_system.Strings.Laws.{NoNul, length-snoc, cons_head}
use virtual_operating_system.User.Emulate.{stops, word_end, blanks_end, split_args}
use virtual_operating_system.User.Emulate.Words.{words, blanks_end_lem, Word}
use virtual_operating_system.User.Emulate.Rounds.{
  Split, last_round, word_round, first_found, NoNul-parts, Word-from, nul_round,
}

-- A round from the end of the blanks on, given the rounds behind it.
module _ (r : ℕ) (pre blanks post : List ℕ)
    (later : (s pre post : List ℕ)
      → length s < r
      → length s < 1026
      → NoNul s
      → Split pre (words none s) (split_args r (pre ++ (s ++ (0 ∷ post))) (length pre))) where
  abbrev line : List ℕ
  line = pre ++ blanks

  abbrev AtText : List ℕ → Type 0
  AtText text = blanks_end 1026 (line ++ (text ++ (0 ∷ post))) (length pre) ≡ some (length line)

  -- The word is the last thing on the line.
  last_word :
      (x : ℕ) (t : List ℕ)
      → 0 < r
      → NoNul (x ∷ t)
      → (x == 0 || x == 10) ≡ false
      → AtText (x ∷ t)
      → word_end 1026 (line ++ ((x ∷ t) ++ (0 ∷ post))) (length line)
        ≡ some (length (line ++ (x ∷ t)))
      → Split pre ((x ∷ t) ∷ []) (split_args (suc r) (line ++ ((x ∷ t) ++ (0 ∷ post))) (length pre))
  last_word x t more z go e ends =
      let word = x ∷ t in
      let front = line ++ word in
      record {
        buf = front ++ (0 ∷ post);
        behind = blanks ++ (word ++ (0 ∷ post));
        at = length line ∷ [];
        run =
            word_round r (length pre) x 0 line t post e go ends
            ∙ rw (nul_round r front post more) refl;
        kept = append_assoc line word (0 ∷ post) ∙ append_assoc pre blanks (word ++ (0 ∷ post));
        found =
            first_found line word post (front ++ (0 ∷ post)) [] []
              (append_assoc line word (0 ∷ post)) z refl;
      }

  -- The word ends at `c`, and the rounds behind it find the words of `u`.
  word_and_rest :
      (x c : ℕ) (t u : List ℕ)
      → length u < r
      → length u < 1026
      → NoNul (x ∷ t)
      → c ≢ 0
      → NoNul u
      → (x == 0 || x == 10) ≡ false
      → blanks_end 1026 (line ++ ((x ∷ t) ++ (c ∷ (u ++ (0 ∷ post))))) (length pre)
        ≡ some (length line)
      → word_end 1026 (line ++ ((x ∷ t) ++ (c ∷ (u ++ (0 ∷ post))))) (length line)
        ≡ some (length (line ++ (x ∷ t)))
      → Split pre
          ((x ∷ t) ∷ words none u)
          (split_args (suc r) (line ++ ((x ∷ t) ++ (c ∷ (u ++ (0 ∷ post))))) (length pre))
  word_and_rest x c t u room small z ne zu go e ends =
      let word = x ∷ t in
      let front = line ++ word in
      let off : (c == 0) ≡ false = ground (arith, ne) in
      let i = later u (front ++ (0 ∷ [])) post room small zu in
      let kept : i.buf ≡ line ++ (word ++ (0 ∷ i.behind)) =
        i.kept ∙ append_assoc front (0 ∷ []) i.behind ∙ append_assoc line word (0 ∷ i.behind) in
      let run = rw (append_assoc front (0 ∷ []) (u ++ (0 ∷ post)), length-snoc front 0) at i.run in
      record {
        buf = i.buf;
        behind = blanks ++ (word ++ (0 ∷ i.behind));
        at = length line ∷ i.at;
        run = word_round r (length pre) x c line t (u ++ (0 ∷ post)) e go ends ∙ rw (off, run) refl;
        kept = kept ∙ append_assoc pre blanks (word ++ (0 ∷ i.behind));
        found = first_found line word i.behind i.buf i.at (words none u) kept z i.found;
      }

  from_Word :
      (x : ℕ) (t : List ℕ)
      → NoNul (x ∷ t)
      → length (x ∷ t) < suc r
      → length (x ∷ t) < 1026
      → AtText (x ∷ t)
      → (x == 0 || x == 10) ≡ false
      → Word
          (line ++ (x ∷ []))
          t
          post
          (x ∷ [])
          (word_end 1026 (line ++ ((x ∷ t) ++ (0 ∷ post))) (length line))
      → Split pre
          (words (some (x ∷ [])) t)
          (split_args (suc r) (line ++ ((x ∷ t) ++ (0 ∷ post))) (length pre))
  from_Word x t z short small e go w =
      let front = line ++ (x ∷ w.word) in
      let zw : NoNul (x ∷ w.word) = (z.0, (NoNul-parts w.word w.rest (rw w.parts at z.1)).0) in
      let ends : length ((line ++ (x ∷ [])) ++ w.word) ≡ length front =
        ap length (append_assoc line (x ∷ []) w.word) in
      elim w.last [
        | inl (none_left, all) ↦
            let whole : t ≡ w.word = w.parts ∙ rw none_left (append-nil w.word) in
            let joined : (x ∷ t) ++ (0 ∷ post) ≡ (x ∷ w.word) ++ (0 ∷ post) =
              ap (λ (s : List ℕ). (x ∷ s) ++ (0 ∷ post)) whole in
            rw (all, joined)
              (last_word x w.word (omega arith) zw go (rw joined at e)
                (rw (joined, ends) at w.ends))
        | inr (c, u, more, ne, all) ↦
            let parts : t ≡ w.word ++ (c ∷ u) = w.parts ∙ ap (λ (s : List ℕ). w.word ++ s) more in
            let joined : (x ∷ t) ++ (0 ∷ post) ≡ (x ∷ w.word) ++ (c ∷ (u ++ (0 ∷ post))) =
              ap (λ (s : List ℕ). (x ∷ s) ++ (0 ∷ post)) parts
              ∙ append_assoc (x ∷ w.word) (c ∷ u) (0 ∷ post) in
            let size : length t ≡ length w.word + suc (length u) =
              ap length parts ∙ length-append w.word (c ∷ u) in
            let zu : NoNul u = (NoNul-parts w.word (c ∷ u) (rw parts at z.1)).1.1 in
            rw (all, joined)
              (word_and_rest x c w.word u (omega (arith, size)) (omega (arith, size)) zw ne zu go
                (rw joined at e) (rw (joined, ends) at w.ends))
      ]

  from_text :
      (text : List ℕ)
      → NoNul text
      → length text < suc r
      → length text < 1026
      → AtText text
      → (text ≡ []) ⊎ ((c : ℕ) × (u : List ℕ) × (text ≡ c ∷ u) × (c ≢ 32))
      → Split pre (words none text) (split_args (suc r) (line ++ (text ++ (0 ∷ post))) (length pre))
  from_text [] z h k e starts = record {
    buf = line ++ (0 ∷ post);
    behind = blanks ++ (0 ∷ post);
    at = [];
    run = last_round r 0 (length pre) line post e refl;
    kept = append_assoc pre blanks (0 ∷ post);
    found = refl;
  }
  from_text (x ∷ t) z h k e starts =
      let away : (x == 32) ≡ false = elim starts [
        | inl none_left ↦ absurd cc
        | inr (c, u, p, ne) ↦ let q : x ≡ c = cons_head p in ground (arith, q, ne)
      ] in
      elim (Bool-cases (x == 10)) [
        | inl stop ↦
            let ends : (x == 0 || x == 10) ≡ true = ground (arith, stop) in
            rw (away, stop)
              (record {
                buf = line ++ (0 ∷ (t ++ (0 ∷ post)));
                behind = blanks ++ (0 ∷ (t ++ (0 ∷ post)));
                at = [];
                run = last_round r x (length pre) line (t ++ (0 ∷ post)) e ends;
                kept = append_assoc pre blanks (0 ∷ (t ++ (0 ∷ post)));
                found = refl;
              })
        | inr go ↦
            let on : stops x ≡ false = ground (arith, z.0, away, go) in
            let more : (x == 0 || x == 10) ≡ false = ground (arith, z.0, go) in
            rw (away, go)
              (from_Word x t z h k e more (Word-from x t line post on (omega arith) z.1))
      ]

-- The loop over the arguments finds the words of the line.
pub split_args_lem :
    (r : ℕ) (s pre post : List ℕ)
    → length s < r
    → length s < 1026
    → NoNul s
    → Split pre (words none s) (split_args r (pre ++ (s ++ (0 ∷ post))) (length pre))
split_args_lem zero s pre post h k z = absurd (omega arith)
split_args_lem (suc r) s pre post h k z =
    let b = blanks_end_lem s pre post 1026 k z in
    let zt = (NoNul-parts b.blanks b.text (rw b.parts at z)).1 in
    let size : length b.blanks + length b.text ≡ length s =
      sym (length-append b.blanks b.text) ∙ ap length (sym b.parts) in
    let moved : pre ++ (s ++ (0 ∷ post)) ≡ (pre ++ b.blanks) ++ (b.text ++ (0 ∷ post)) =
      ap (λ (t : List ℕ). pre ++ (t ++ (0 ∷ post))) b.parts
      ∙ ap (λ (t : List ℕ). pre ++ t) (append_assoc b.blanks b.text (0 ∷ post))
      ∙ sym (append_assoc pre b.blanks (b.text ++ (0 ∷ post))) in
    rw (b.same, moved)
      (from_text r pre b.blanks post (split_args_lem r) b.text zt (omega (arith, size))
        (omega (arith, size)) (rw moved at b.ends) b.starts)
