-- ===== src/Clients/Terminal.antt =====
-- `__normalize_terminal_output__` of orbitlab/clients/proxmox/base/client.py: the lines of what a
-- terminal printed. A decoded text is its code points.
pub mod Lines
use orbit_lab.Prelude.{
  ℕ, zero, suc, ◌+◌, Bool, false, not, ◌&&◌, ◌||◌, Option, none, some, List, [], ◌∷◌, ◌++◌, length,
  leb, eqb, if◌then◌else◌,
}
use orbit_lab.Manifest.Ref.{Text}
use orbit_lab.Strings.{is_space, rstrip}

-- `text[i]`, or none past the end
unfoldable pub at : Text → ℕ → Option ℕ
at [] i = none
at (c ∷ t) zero = some c
at (c ∷ t) (suc i) = at t i

-- `bool(text.strip())`: something other than space
unfoldable pub has_text : Text → Bool
unfolding is_space
has_text [] = false
has_text (c ∷ t) = not (is_space c) || has_text t

-- `if buf.strip(): lines.append(buf.rstrip())`
unfoldable pub flush : List Text → Text → List Text
unfolding has_text rstrip
flush lines buf = if has_text buf then lines ++ rstrip buf ∷ [] else lines

-- The loop's variables.
pub record Scan : Type 0 where
  pub lines : List Text
  pub buf : Text
  pub i : ℕ

-- What follows a carriage return at `i`.
unfoldable pub carriage_return : Option ℕ → Scan → Scan
unfolding flush
carriage_return none s = record s { buf = []; i = s.i + 1 }
carriage_return (some c) s =
    if eqb c 10
    then record { lines = flush s.lines s.buf; buf = []; i = s.i + 2 }
    else record s { buf = []; i = s.i + 1 }

-- One round of the loop at the character `ch`.
unfoldable pub round : Text → ℕ → Scan → Scan
unfolding carriage_return flush at
round text ch s =
    if eqb ch 13
    then carriage_return (at text (s.i + 1)) s
    else if eqb ch 10
    then record { lines = flush s.lines s.buf; buf = []; i = s.i + 1 }
    else record s { buf = s.buf ++ ch ∷ []; i = s.i + 1 }

-- `while i < len(text)`, with fuel for the rounds; none where it is not enough
unfoldable pub loop : ℕ → Text → Scan → Option Scan
unfolding round at
loop zero text s = none
loop (suc fuel) text s = elim (at text s.i) [
  | none ↦ some s
  | some ch ↦ loop fuel text (round text ch s)
]

unfoldable pub finish : Option Scan → Option (List Text)
unfolding flush
finish none = none
finish (some s) = some (flush s.lines s.buf)

unfoldable pub normalize_terminal_output : Text → Option (List Text)
unfolding loop finish
normalize_terminal_output text =
    finish (loop (suc (length text)) text (record { lines = []; buf = []; i = 0 }))
