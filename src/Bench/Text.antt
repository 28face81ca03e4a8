-- ===== src/Bench/Text.antt =====
-- The text files of benchmark.cc: what is written a line at a time is read back.
use mathlib.Core.List.{append_assoc, append-nil}
use pmraccess.Base.{
  ℕ, zero, suc, ◌≤◌, ◌≡◌, refl, sym, ◌∙◌, ap, true, false, none, some, List, [], ◌∷◌, ◌++◌, arith,
  length, length-append, Bytes,
}
use pmraccess.Bench.Input.{is_space, skip, word, read_pair, read_pairs}

-- A word: not empty, and without blanks.
abbrev pub NoSpace : Bytes → Type 0
NoSpace [] = Unit {0}
NoSpace (c ∷ cs) = (is_space c ≡ false) × NoSpace cs

abbrev pub IsWord : Bytes → Type 0
IsWord [] = ⊥
IsWord (c ∷ cs) = (is_space c ≡ false) × NoSpace cs

abbrev pub AllWords : List (Bytes × Bytes) → Type 0
AllWords [] = Unit {0}
AllWords ((op, key) ∷ ps) = (IsWord op × IsWord key) × AllWords ps

-- A line of each pair.
abbrev pub line : Bytes × Bytes → Bytes
line p = p.0 ++ 32 ∷ p.1

unfoldable pub print : List (Bytes × Bytes) → Bytes
print [] = []
print (p ∷ ps) = line p ++ 10 ∷ print ps

word-append :
    (w : Bytes) (c : ℕ) (rest : Bytes)
    → NoSpace w
    → is_space c ≡ true
    → word (w ++ c ∷ rest) ≡ (w, c ∷ rest, true)
unfolding word
word-append [] c rest h e = rw e refl
word-append (x ∷ w) c rest h e = rw (h.0, word-append w c rest (h.1) e) refl

word-whole : (w : Bytes) → NoSpace w → word w ≡ (w, [], false)
unfolding word
word-whole [] h = refl
word-whole (x ∷ w) h = rw (h.0, word-whole w (h.1)) refl

skip-word : (w rest : Bytes) → IsWord w → skip (w ++ rest) ≡ w ++ rest
skip-word [] rest h = absurd h
skip-word (c ∷ w) rest h = rw (h.0) refl

IsWord-NoSpace : (w : Bytes) → IsWord w → NoSpace w
IsWord-NoSpace [] h = absurd h
IsWord-NoSpace (c ∷ w) h = h

read_pair-line :
    (text : Bytes) (p : Bytes × Bytes) (rest : Bytes)
    → IsWord p.0
    → IsWord p.1
    → skip text ≡ p.0 ++ 32 ∷ (p.1 ++ 10 ∷ rest)
    → read_pair text ≡ some (p, 10 ∷ rest)
unfolding read_pair
read_pair-line text (op, key) rest w k e =
    rw
      (
        e,
        word-append op 32 (key ++ 10 ∷ rest) (IsWord-NoSpace op w) refl,
        skip-word key (10 ∷ rest) k,
        word-append key 10 rest (IsWord-NoSpace key k) refl,
      )
      refl

-- A line without its end.
read_pair_unfinished :
    (text : Bytes) (p : Bytes × Bytes)
    → IsWord p.0
    → IsWord p.1
    → skip text ≡ skip (line p)
    → read_pair text ≡ none
unfolding read_pair
read_pair_unfinished text (op, key) w k e =
    rw
      (
        e ∙ skip-word op (32 ∷ key) w,
        word-append op 32 key (IsWord-NoSpace op w) refl,
        ap skip (sym (append-nil key)) ∙ skip-word key [] k ∙ append-nil key,
        word-whole key (IsWord-NoSpace key k),
      )
      refl

read_pair_empty : (text : Bytes) → skip text ≡ [] → read_pair text ≡ none
unfolding read_pair word
read_pair_empty text e = rw e refl

-- The lines of `ps`, and behind them something that is no pair.
read_pairs-lines :
    (n : ℕ) (ps : List (Bytes × Bytes)) (text tail : Bytes)
    → AllWords ps
    → skip text ≡ skip (print ps ++ tail)
    → ((text' : Bytes) → skip text' ≡ skip tail → read_pair text' ≡ none)
    → length ps ≤ n
    → read_pairs n text ≡ ps
unfolding read_pairs print
read_pairs-lines zero [] text tail w e stops h = refl
read_pairs-lines zero (p ∷ ps) text tail w e stops h = absurd (omega arith)
read_pairs-lines (suc n) [] text tail w e stops h = rw (read_pairs, stops text e) refl
read_pairs-lines (suc n) ((op, key) ∷ ps) text tail ((wo, wk), ws) e stops h =
    let begins : skip text ≡ op ++ 32 ∷ (key ++ 10 ∷ (print ps ++ tail)) =
      e
      ∙ ap skip (
          append_assoc (op ++ 32 ∷ key) (10 ∷ print ps) tail
          ∙ append_assoc op (32 ∷ key) (10 ∷ (print ps ++ tail)))
      ∙ skip-word op (32 ∷ (key ++ 10 ∷ (print ps ++ tail))) wo in
    rw (read_pairs, read_pair-line text (op, key) (print ps ++ tail) wo wk begins)
      (ap (◌∷◌ (op, key))
        (read_pairs-lines n ps (10 ∷ (print ps ++ tail)) tail ws refl stops (omega arith)))

length-print : (ps : List (Bytes × Bytes)) → length ps ≤ length (print ps)
unfolding print
length-print [] = omega arith
length-print (p ∷ ps) = omega (arith, length-append (line p) (10 ∷ print ps), length-print ps)

-- Pairs of words written a line at a time, the last with its end, are read back by the loop of
-- `LoadData`, on as much fuel as the text has characters.
pub read_pairs-print :
    (ps : List (Bytes × Bytes)) → AllWords ps → read_pairs (length (print ps)) (print ps) ≡ ps
read_pairs-print ps w =
    read_pairs-lines (length (print ps)) ps (print ps) [] w (ap skip (sym (append-nil (print ps))))
      (λ text e. read_pair_empty text e) (length-print ps)

-- Of a file whose last line has no end, that line is lost, although it has two words: `good()` is
-- false at the end of the file.
pub read_pairs-unfinished :
    (ps : List (Bytes × Bytes)) (p : Bytes × Bytes)
    → AllWords ps
    → IsWord p.0
    → IsWord p.1
    → (let text = print ps ++ line p in read_pairs (length text) text ≡ ps)
read_pairs-unfinished ps p w wo wk =
    read_pairs-lines (length (print ps ++ line p)) ps (print ps ++ line p) (line p) w refl
      (λ text e. read_pair_unfinished text p wo wk e)
      (omega (arith, length-append (print ps) (line p), length-print ps))
