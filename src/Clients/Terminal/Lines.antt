-- ===== src/Clients/Terminal/Lines.antt =====
-- `__normalize_terminal_output__` of orbitlab/clients/proxmox/base/client.py against a description by lines.
use orbit_lab.Prelude.{
  ℕ, zero, suc, ◌+◌, ◌<◌, ◌≡◌, refl, sym, ap, ap₂, subst, ◌∙◌, Bool, true, false, ◌&&◌, none, some,
  List, [], ◌∷◌, ◌++◌, length, drop, map, eqb, contains, nat_eq, eqb_iff, ◌⊎◌, arith, append_assoc,
  append-nil, Bool-cases, inl, inr, if◌then◌else◌,
}
use native.Mathlib.Numerals.{unary_clauses}
use orbit_lab.Manifest.Ref.{Text}
use orbit_lab.Strings.{rstrip}
use orbit_lab.Clients.Terminal.{
  at, has_text, flush, Scan, carriage_return, round, loop, finish, normalize_terminal_output,
}

-- A carriage return right before a line feed is dropped.
starts_line_feed : Text → Bool
starts_line_feed [] = false
starts_line_feed (c ∷ t) = eqb c 10

unix : Text → Text
unfolding starts_line_feed
unix [] = []
unix (c ∷ t) = let rest = unix t in if eqb c 13 && starts_line_feed t then rest else c ∷ rest

-- The first line, and the others.
split_lines : Text → Text × List Text
split_lines [] = ([], [])
split_lines (c ∷ t) = let (l, ls) = split_lines t in if eqb c 10 then ([], l ∷ ls) else (c ∷ l, ls)

-- What is left of a line on the screen: what follows its last carriage return.
after_return : Text → Text
after_return [] = []
after_return (c ∷ t) =
    let rest = after_return t in if contains t 13 then rest else if eqb c 13 then t else c ∷ t

-- The lines with something on them, without the spaces at their ends.
keep : List Text → List Text
keep [] = []
keep (l ∷ ls) = let rest = keep ls in if has_text l then rstrip l ∷ rest else rest

screen : Text × List Text → List Text
unfolding keep after_return
screen (l, ls) = keep (map after_return (l ∷ ls))

pub screen_lines : Text → List Text
unfolding screen split_lines unix
screen_lines t = screen (split_lines (unix t))

after_return_none : (t : Text) → contains t 13 ≡ false → after_return t ≡ t
unfolding after_return contains
after_return_none [] h = refl
after_return_none (c ∷ t) h = ground arith

contains_after : (buf l : Text) → contains (buf ++ 13 ∷ l) 13 ≡ true
unfolding contains
contains_after [] l = refl
contains_after (c ∷ buf) l = ground (arith, contains_after buf l)

after_return-append : (buf l : Text) → after_return (buf ++ 13 ∷ l) ≡ after_return l
unfolding after_return
after_return-append [] l = ground (arith, after_return_none l)
after_return-append (c ∷ buf) l = rw (contains_after buf l) (after_return-append buf l)

contains-snoc :
    (buf : Text) (c : ℕ)
    → contains buf 13 ≡ false
    → eqb c 13 ≡ false
    → contains (buf ++ c ∷ []) 13 ≡ false
unfolding contains
contains-snoc [] c h n = ground arith
contains-snoc (b ∷ buf) c h n = ground (arith, contains-snoc buf c)

at-drop :
    (text : Text) (i c : ℕ) (u : Text)
    → drop i text ≡ c ∷ u
    → (at text i ≡ some c) × (drop (suc i) text ≡ u)
unfolding at
at-drop [] zero c u h = (cc, cc)
at-drop [] (suc i) c u h = (cc, cc)
at-drop (x ∷ text) zero c u h = (cc, cc)
at-drop (x ∷ text) (suc i) c u h = at-drop text i c u h

drop_next : (text : Text) (i c : ℕ) (u : Text) → drop i text ≡ c ∷ u → drop (i + 1) text ≡ u
drop_next text i c u d = simp unary_clauses (at-drop text i c u d).1

at-drop_end : (text : Text) (i : ℕ) → drop i text ≡ [] → at text i ≡ none
unfolding at
at-drop_end [] i h = refl
at-drop_end (x ∷ text) zero h = cc
at-drop_end (x ∷ text) (suc i) h = at-drop_end text i h

-- The rest of the lines, where `buf` stands on the screen already.
screen_from : Text → Text → List Text
unfolding screen
screen_from buf t = let (l, ls) = split_lines (unix t) in screen (buf ++ l, ls)

flush-keep :
    (lines : List Text) (buf : Text) (rest : List Text)
    → flush lines buf ++ keep rest ≡ lines ++ keep (buf ∷ rest)
unfolding flush keep
flush-keep lines buf rest = elim (Bool-cases (has_text buf)) [
  | inl y ↦ rw (y, append_assoc) refl
  | inr n ↦ rw n refl
]

screen_from_end :
    (buf : Text) (lines : List Text)
    → contains buf 13 ≡ false
    → flush lines buf ≡ lines ++ screen_from buf []
unfolding screen_from screen split_lines unix
screen_from_end buf lines n =
    rw (append-nil buf, after_return_none buf n)
      (sym (append-nil (flush lines buf)) ∙ flush-keep lines buf [])

screen_from_line_feed :
    (buf u : Text) (lines : List Text)
    → contains buf 13 ≡ false
    → flush lines buf ++ screen_from [] u ≡ lines ++ screen_from buf (10 ∷ u)
unfolding screen_from screen split_lines unix
screen_from_line_feed buf u lines n =
    let (l, ls) = split_lines (unix u) in
    rw (append-nil buf, after_return_none buf n) (flush-keep lines buf (map after_return (l ∷ ls)))

screen_from_return :
    (buf u : Text) → starts_line_feed u ≡ false → screen_from [] u ≡ screen_from buf (13 ∷ u)
unfolding screen_from screen split_lines unix
screen_from_return buf u n = rw (n, after_return-append buf) refl

screen_from_other :
    (buf u : Text) (c : ℕ)
    → eqb c 13 ≡ false
    → eqb c 10 ≡ false
    → screen_from (buf ++ c ∷ []) u ≡ screen_from buf (c ∷ u)
unfolding screen_from screen split_lines unix
screen_from_other buf u c r n = rw (r, n, append_assoc buf (c ∷ [])) refl

abbrev scan : List Text → Text → ℕ → Scan
scan lines buf i = record { lines = lines; buf = buf; i = i }

Goes : ℕ → Text → Type 0
Goes fuel text =
    (lines : List Text) (buf : Text) (i : ℕ) (t : Text)
    → drop i text ≡ t
    → length t < fuel
    → contains buf 13 ≡ false
    → finish (loop fuel text (scan lines buf i)) ≡ some (lines ++ screen_from buf t)

go_end :
    (fuel : ℕ) (text : Text) (lines : List Text) (buf : Text) (i : ℕ)
    → at text i ≡ none
    → contains buf 13 ≡ false
    → finish (loop (suc fuel) text (scan lines buf i)) ≡ some (lines ++ screen_from buf [])
unfolding loop finish
go_end fuel text lines buf i h n = rw (h, loop, finish) (ap some (screen_from_end buf lines n))

go_round :
    (fuel c : ℕ) (text : Text) (s : Scan) (lines : List Text) (buf : Text) (i : ℕ) (t : Text)
    (result : List Text)
    → Goes fuel text
    → at text s.i ≡ some c
    → round text c s ≡ scan lines buf i
    → drop i text ≡ t
    → length t < fuel
    → contains buf 13 ≡ false
    → lines ++ screen_from buf t ≡ result
    → finish (loop (suc fuel) text s) ≡ some result
unfolding loop Goes
go_round fuel c text s lines buf i t result ih a r d f n e =
    rw (a, r, loop) (ih lines buf i t d f n ∙ ap some e)

next_is : (u : Text) → ((r : Text) × (u ≡ 10 ∷ r)) ⊎ (starts_line_feed u ≡ false)
unfolding starts_line_feed
next_is [] = inr refl
next_is (c ∷ u) = elim (Bool-cases (eqb c 10)) [
  | inl e ↦ inl (u, ap (λ x. x ∷ u) ((eqb_iff c 10).0 e))
  | inr e ↦ inr e
]

screen_from_crlf : (buf r : Text) → screen_from buf (13 ∷ 10 ∷ r) ≡ screen_from buf (10 ∷ r)
unfolding screen_from unix starts_line_feed
screen_from_crlf buf r = refl

go_return_line_feed :
    (fuel : ℕ) (text : Text) (lines : List Text) (buf : Text) (i : ℕ) (r : Text)
    → Goes fuel text
    → drop i text ≡ 13 ∷ 10 ∷ r
    → length (10 ∷ r) < fuel
    → contains buf 13 ≡ false
    → finish (loop (suc fuel) text (scan lines buf i))
      ≡ some (lines ++ screen_from buf (13 ∷ 10 ∷ r))
unfolding round carriage_return contains
go_return_line_feed fuel text lines buf i r ih d f n =
    let d1 = drop_next text i 13 (10 ∷ r) d in
    let d2 = simp unary_clauses at (at-drop text (i + 1) 10 r d1).1 in
    let e =
      screen_from_line_feed buf r lines n ∙ ap (λ s. lines ++ s) (sym (screen_from_crlf buf r)) in
    go_round fuel 13 text (scan lines buf i) (flush lines buf) [] (i + 2) r
      (lines ++ screen_from buf (13 ∷ 10 ∷ r)) ih (at-drop text i 13 (10 ∷ r) d).0
      (rw ((at-drop text (i + 1) 10 r d1).0) refl) (simp unary_clauses d2) (omega arith) refl e

round_return :
    (text : Text) (lines : List Text) (buf : Text) (i : ℕ) (u : Text)
    → drop (i + 1) text ≡ u
    → starts_line_feed u ≡ false
    → round text 13 (scan lines buf i) ≡ scan lines [] (i + 1)
unfolding round carriage_return starts_line_feed
round_return text lines buf i [] d n = rw (at-drop_end text (i + 1) d) refl
round_return text lines buf i (c ∷ u) d n = rw ((at-drop text (i + 1) c u d).0, n) refl

go_return :
    (fuel : ℕ) (text : Text) (lines : List Text) (buf : Text) (i : ℕ) (u : Text)
    → Goes fuel text
    → drop i text ≡ 13 ∷ u
    → length u < fuel
    → starts_line_feed u ≡ false
    → finish (loop (suc fuel) text (scan lines buf i)) ≡ some (lines ++ screen_from buf (13 ∷ u))
unfolding contains
go_return fuel text lines buf i u ih d f e =
    let d1 = drop_next text i 13 u d in
    go_round fuel 13 text (scan lines buf i) lines [] (i + 1) u (lines ++ screen_from buf (13 ∷ u))
      ih (at-drop text i 13 u d).0 (round_return text lines buf i u d1 e) d1 f refl
      (ap (λ r. lines ++ r) (screen_from_return buf u e))

go_line_feed :
    (fuel : ℕ) (text : Text) (lines : List Text) (buf : Text) (i : ℕ) (u : Text)
    → Goes fuel text
    → drop i text ≡ 10 ∷ u
    → length u < fuel
    → contains buf 13 ≡ false
    → finish (loop (suc fuel) text (scan lines buf i)) ≡ some (lines ++ screen_from buf (10 ∷ u))
unfolding round contains
go_line_feed fuel text lines buf i u ih d f n =
    go_round fuel 10 text (scan lines buf i) (flush lines buf) [] (i + 1) u
      (lines ++ screen_from buf (10 ∷ u)) ih (at-drop text i 10 u d).0 refl
      (drop_next text i 10 u d) f refl (screen_from_line_feed buf u lines n)

go_other :
    (fuel c : ℕ) (text : Text) (lines : List Text) (buf : Text) (i : ℕ) (u : Text)
    → Goes fuel text
    → drop i text ≡ c ∷ u
    → length u < fuel
    → contains buf 13 ≡ false
    → eqb c 13 ≡ false
    → eqb c 10 ≡ false
    → finish (loop (suc fuel) text (scan lines buf i)) ≡ some (lines ++ screen_from buf (c ∷ u))
unfolding round
go_other fuel c text lines buf i u ih d f n r o =
    go_round fuel c text (scan lines buf i) lines (buf ++ c ∷ []) (i + 1) u
      (lines ++ screen_from buf (c ∷ u)) ih (at-drop text i c u d).0 (rw (r, o) refl)
      (drop_next text i c u d) f (contains-snoc buf c n r)
      (ap (λ s. lines ++ s) (screen_from_other buf u c r o))

go_next :
    (fuel c : ℕ) (text : Text) (lines : List Text) (buf : Text) (i : ℕ) (u : Text)
    → Goes fuel text
    → drop i text ≡ c ∷ u
    → length u < fuel
    → contains buf 13 ≡ false
    → finish (loop (suc fuel) text (scan lines buf i)) ≡ some (lines ++ screen_from buf (c ∷ u))
go_next fuel c text lines buf i u ih d f n = elim (Bool-cases (eqb c 13)) [
  | inl e ↦ elim (next_is u) [
    | inl (r, eu) ↦
        rw ((eqb_iff c 13).0 e, eu)
          (go_return_line_feed fuel text lines buf i r ih
            (d ∙ ap₂ (λ x y. x ∷ y) ((eqb_iff c 13).0 e) eu) (subst (λ x. length x < fuel) eu f) n)
    | inr eu ↦
        rw ((eqb_iff c 13).0 e)
          (go_return fuel text lines buf i u ih (d ∙ ap (λ x. x ∷ u) ((eqb_iff c 13).0 e)) f eu)
  ]
  | inr r ↦ elim (Bool-cases (eqb c 10)) [
    | inl e ↦
        rw ((eqb_iff c 10).0 e)
          (go_line_feed fuel text lines buf i u ih (d ∙ ap (λ x. x ∷ u) ((eqb_iff c 10).0 e)) f n)
    | inr o ↦ go_other fuel c text lines buf i u ih d f n r o
  ]
]

loop-Goes : (fuel : ℕ) (text : Text) → Goes fuel text
unfolding Goes
loop-Goes zero text lines buf i t d f n = ground arith
loop-Goes (suc fuel) text lines buf i [] d f n =
    go_end fuel text lines buf i (at-drop_end text i d) n
loop-Goes (suc fuel) text lines buf i (c ∷ u) d f n =
    go_next fuel c text lines buf i u (loop-Goes fuel text) d (omega arith) n

-- The loop ends within one round for each character and one more, and what it returns of any text are the lines that
-- stay on the screen: with a carriage return before a line feed dropped, the text is cut at its line feeds, each line
-- is what follows its last carriage return, the lines with nothing but space are left out and the others lose the
-- space at their ends.
pub normalize_terminal_output-screen_lines :
    (text : Text) → normalize_terminal_output text ≡ some (screen_lines text)
unfolding normalize_terminal_output screen_lines Goes contains screen_from
normalize_terminal_output-screen_lines text =
    loop-Goes (suc (length text)) text [] [] 0 text refl (omega arith) refl
