-- ===== src/Printf/Tests.antt =====
-- Expansions of formats of the program.
use procenv.Prelude.{◌≡◌, refl, [], ◌∷◌, some, pos, negsuc, codes}
use procenv.Printf.{str, int, uint, vsnprintf}

leader :
    vsnprintf (int (negsuc 41) ∷ str (codes "yes") ∷ []) (codes "%d (leader=%s)")
    ≡ some (codes "-42 (leader=yes)")
unfolding vsnprintf
leader = refl

octal : vsnprintf (uint 18 ∷ uint 1000000 ∷ []) (codes "%4.4o %lu") ≡ some (codes "0022 1000000")
unfolding vsnprintf
octal = refl

padded :
    vsnprintf (int (pos 7) ∷ uint 255 ∷ int (pos 5) ∷ []) (codes "%2.2d:%.2x:%09ld%%")
    ≡ some (codes "07:ff:000000005%")
unfolding vsnprintf
padded = refl
