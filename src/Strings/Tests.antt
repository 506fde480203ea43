-- ===== src/Strings/Tests.antt =====
-- Short strings in memory, and the theorems on lib/string.c at them.
use fos_fcis_operating_syste.Prelude.{◌≡◌, refl, [], ◌∷◌, arith, add32, Returns}
use fos_fcis_operating_syste.Memory.{Mem}
use fos_fcis_operating_syste.Strings.Defs.{put, strcmp, memmove, memset}
use fos_fcis_operating_syste.Strings.Moves.{memmove-copied, memset-filled}
use fos_fcis_operating_syste.Strings.Texts.{Text, Tells, strcmp-equal}

-- "hi" at 100 and "ha" at 200
abbrev two_texts : Mem
two_texts = put (put (put (put (λ _. 0) 100 104) 101 105) 200 104) 201 97

first-Text : Text two_texts 100 (104 ∷ 105 ∷ [])
unfolding add32
first-Text = (refl, omega arith, (refl, omega arith, refl))

second-Text : Text two_texts 200 (104 ∷ 97 ∷ [])
unfolding add32
second-Text = (refl, omega arith, (refl, omega arith, refl))

strcmp-equal_example :
    Returns (Tells (104 ∷ 105 ∷ []) (104 ∷ 97 ∷ [])) (strcmp 10 two_texts 100 200)
strcmp-equal_example =
    strcmp-equal 10 two_texts 100 200 (104 ∷ 105 ∷ []) (104 ∷ 97 ∷ []) first-Text second-Text
      (omega arith, (omega arith, tt)) (omega arith, (omega arith, tt)) (omega arith)

-- The ranges overlap: from 100 up to 102, to 101 up to 103.
memmove-copied_example : memmove 101 100 2 two_texts 102 ≡ 105
memmove-copied_example = memmove-copied 101 100 2 two_texts 102 (omega arith) (omega arith)

-- 263 is 7 as a byte.
memset-filled_example : memset 100 263 2 two_texts 101 ≡ 7
memset-filled_example = memset-filled 100 263 2 two_texts 101 (omega arith)
