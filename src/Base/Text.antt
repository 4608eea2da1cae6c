-- ===== src/Base/Text.antt =====
-- Text: `toLowerCase` on ASCII letters, and the code units of a text.
use Prim.Native.Char.{Char, code}
use Prim.Native.Nat.{ℕ}
use Prim.Native.String.{String}
use mathlib.Core.List.{List, [], ◌∷◌}
use mathlib.Core.Bool.{Bool, true, false, ◌&&◌}
use mathlib.Core.Path.{◌≡◌}
use mathlib.Core.Logic.{◌↔◌}
use native.Mathlib.Omega.{arith}
use vex_agentscan.Base.Tests.{Eq, nat_beq, if◌then◌else◌}

abbrev pub codes : String → List ℕ
codes String.[] = []
codes (String.◌∷◌ c s) = code c ∷ codes s

abbrev pub codes_beq : List ℕ → List ℕ → Bool
codes_beq [] [] = true
codes_beq (c ∷ cs) (d ∷ ds) = nat_beq c d && codes_beq cs ds
codes_beq _ _ = false

pub codes_beq_iff : (cs ds : List ℕ) → (codes_beq cs ds ≡ true) ↔ (cs ≡ ds)
codes_beq_iff [] [] = ground arith
codes_beq_iff [] (d ∷ ds) = ground arith
codes_beq_iff (c ∷ cs) [] = ground arith
codes_beq_iff (c ∷ cs) (d ∷ ds) = ground (arith, codes_beq_iff cs ds)

instance abbrev pub codes_eq : Eq (List ℕ)
codes_eq = record { beq = codes_beq; beq_iff = codes_beq_iff }

-- The character that stands in the second text where `c` stands in the first.
translate : String → String → Char → Char
translate (String.◌∷◌ u us) (String.◌∷◌ l ls) c =
    let rest = translate us ls c in if nat_beq (code u) (code c) then l else rest
translate _ _ c = c

map_text : (Char → Char) → String → String
map_text f String.[] = String.[]
map_text f (String.◌∷◌ c s) = String.◌∷◌ (f c) (map_text f s)

-- `text.toLowerCase()`
unfoldable pub lower : String → String
unfolding translate map_text
lower = map_text (translate "ABCDEFGHIJKLMNOPQRSTUVWXYZ" "abcdefghijklmnopqrstuvwxyz")
