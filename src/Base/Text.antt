-- ===== src/Base/Text.antt =====
-- The order of texts, as `<` on strings has it where no character lies outside the BMP.
use Prim.Native.Char.{code}
use Prim.Native.String.{String, [], ◌∷◌}
use mathlib.Core.Path.{◌≡◌, refl}
use mathlib.Core.Bool.{Bool, true, false, ◌&&◌, ◌||◌}
use native.Mathlib.Omega.{arith}
use text.Mathlib.TextEquality.{Char-path}
use ts_gaurd_service.Base.Tests.{ltb, if◌then◌else◌, ◌==◌, nat_eq}

unfoldable pub ltb_text : String → String → Bool
ltb_text s [] = false
ltb_text [] (d ∷ t) = true
ltb_text (c ∷ s) (d ∷ t) = ltb (code c) (code d) || code c == code d && ltb_text s t

pub ltb_text_irrefl : (s : String) → ltb_text s s ≡ false
unfolding ltb_text
ltb_text_irrefl [] = refl
ltb_text_irrefl (c ∷ s) = ground (arith, ltb_text_irrefl s)

pub ltb_text_asymm : (s t : String) → ltb_text s t ≡ true → ltb_text t s ≡ false
unfolding ltb_text
ltb_text_asymm s [] h = cc
ltb_text_asymm [] (d ∷ t) h = refl
ltb_text_asymm (c ∷ s) (d ∷ t) h = ground (arith, ltb_text_asymm s t)

-- Two texts of which neither is lower are equal.
pub ltb_text_total : (s t : String) → ltb_text s t ≡ false → ltb_text t s ≡ false → s ≡ t
unfolding ltb_text
ltb_text_total [] [] h k = refl
ltb_text_total [] (d ∷ t) h k = cc
ltb_text_total (c ∷ s) [] h k = cc
ltb_text_total (c ∷ s) (d ∷ t) h k =
    let same : c ≡ d = Char-path c d (ground arith) in
    let rest : s ≡ t = ltb_text_total s t (ground arith) (ground arith) in λ i. same i ∷ rest i

-- The lower of two texts, the first if they are equal.
abbrev pub lower : String → String → String
lower a b = if ltb_text b a then b else a

pub lower_comm : (a b : String) → lower a b ≡ lower b a
lower_comm a b = ground (arith, ltb_text_asymm a b, ltb_text_asymm b a, ltb_text_total a b)
