-- ===== src/Prelude/Strip.antt =====
-- Python's `str.strip` and `str.rstrip`, over code points.
use Prim.Native.Char.{code}
use Prim.Native.String.{String}
use Prim.Native.Nat.{ℕ}
use mathlib.Core.Bool.{Bool, true, false, ◌&&◌, ◌||◌}
use mathlib.Core.List.{[], ◌∷◌}
use catchment.Prelude.Tests.{Text, nat_beq, leb, if◌then◌else◌}

-- `str.isspace` of one character.
abbrev pub is_space : ℕ → Bool
is_space c =
    leb 9 c && leb c 13
    || leb 28 c && leb c 32
    || nat_beq c 133
    || nat_beq c 160
    || nat_beq c 5760
    || leb 8192 c && leb c 8202
    || nat_beq c 8232
    || nat_beq c 8233
    || nat_beq c 8239
    || nat_beq c 8287
    || nat_beq c 12288

-- Drops the characters that the test takes, from the front and from the back.
unfoldable pub drop_front : (ℕ → Bool) → Text → Text
drop_front p [] = []
drop_front p (c ∷ cs) = if p c then drop_front p cs else c ∷ cs

-- The character stays if something after it does.
abbrev pub close_back : (ℕ → Bool) → ℕ → Text → Text
close_back p c [] = if p c then [] else c ∷ []
close_back p c (d ∷ ds) = c ∷ d ∷ ds

unfoldable pub drop_back : (ℕ → Bool) → Text → Text
drop_back p [] = []
drop_back p (c ∷ cs) = close_back p c (drop_back p cs)

unfoldable pub strip : Text → Text
unfolding drop_front drop_back
strip t = drop_back is_space (drop_front is_space t)

unfoldable pub rstrip : Text → Text
unfolding drop_back
rstrip t = drop_back is_space t

-- `not text`.
abbrev pub is_empty : Text → Bool
is_empty [] = true
is_empty (c ∷ cs) = false

-- The code points of a text that the source writes out.
abbrev pub codes : String → Text
codes String.[] = []
codes (String.◌∷◌ c s) = code c ∷ codes s
