-- ===== src/Pstring/Tests.antt =====
-- Runs of `pstring_chomp` and `pstring_compress`.
use procenv.Prelude.{◌≡◌, some, ok, refl, [], ◌∷◌, ◌++◌, Text, arith}
use procenv.Memory.{written}
use procenv.Pstring.{pstring_chomp}
use procenv.Pstring.Compress.{skip_run, pstring_compress}
use procenv.Pstring.Compress.Clean.{pstring_compress-clean, pstring_compress-loses}
use procenv.Pstring.Chomp.{stored, chomped, Chomps, pstring_chomp_lem}

-- "ab", and a newline with indentation behind it.
abbrev blank_end : Text
blank_end = b'\n' ∷ b' ' ∷ b' ' ∷ []

pstring_chomp_example :
    Chomps 32
      (b'a' ∷ [])
      b'b'
      refl
      24
      ((b'a' ∷ []) ++ b'b' ∷ chomped blank_end)
      (pstring_chomp 32 (stored ((b'a' ∷ []) ++ b'b' ∷ blank_end) 24))
pstring_chomp_example =
    pstring_chomp_lem 32 (b'a' ∷ []) b'b' refl 24 blank_end (refl, (refl, (refl, tt)))
      (omega arith, (omega arith, (omega arith, (omega arith, (omega arith, tt)))))

-- "a", a newline and "b".
abbrev tidy : Text
tidy = b'a' ∷ b'\n' ∷ b'b' ∷ []

pstring_compress-clean_example : pstring_compress 32 (stored tidy 16) ≡ ok (stored tidy 16)
unfolding skip_run
pstring_compress-clean_example =
    pstring_compress-clean 32 16 tidy (refl, refl, (refl, refl, (refl, refl, tt)))
      (omega arith, (omega arith, (omega arith, tt)))

-- Two newlines, "a" and a newline: the last newline is lost.
pstring_compress-loses_example :
    pstring_compress 32 (stored (b'\n' ∷ b'\n' ∷ ((b'a' ∷ []) ++ b'\n' ∷ [])) 20)
    ≡ ok (record { buf = some (written (b'\n' ∷ b'a' ∷ []) (some 0 ∷ [])); len = 3; size = 12 })
unfolding skip_run
pstring_compress-loses_example =
    pstring_compress-loses 32 20 (b'a' ∷ []) b'\n' refl (refl, refl, (refl, refl, (refl, refl, tt)))
      (omega arith, (omega arith, tt))
