-- ===== src/Program/Show/Misc/Personality.antt =====
-- The list that `get_personality_flags` of src/procenv.c makes.
use Prim.Native.Nat.{bit_and}
use procenv.Prelude.{
  ℕ, ◌≡◌, refl, Option, none, some, List, [], ◌∷◌, ◌++◌, append_assoc, append-nil, true, false,
  ◌==◌, Bytes, ok, codes, Bool-cases, inl, inr,
}
use procenv.Printf.Laws.{vsnprintf-two}
use procenv.StringUtil.ByteStrings.{appendf-none, appendf-some}
use procenv.Program.{append_format}
use procenv.Program.Show.{Map}
use procenv.Program.Show.Process.Groups.{comma_list}
use procenv.Program.Show.Misc.{flags_loop, get_personality_flags}

-- The names of the map whose flag is set, in the order of the map.
abbrev pub set_names : Map → ℕ → List Bytes
set_names [] flags = []
set_names ((name, num) ∷ m) flags = elim (bit_and flags num == 0) [
  | true ↦ set_names m flags
  | false ↦ name ∷ set_names m flags
]

-- The names behind the first.
abbrev comma_tail : List Bytes → Bytes
comma_tail [] = []
comma_tail (n ∷ ns) = (codes ", " ++ n) ++ comma_tail ns

comma_list-tail : (n : Bytes) (ns : List Bytes) → comma_list (n ∷ ns) ≡ n ++ comma_tail ns
comma_list-tail n [] = rw append-nil refl
comma_list-tail n (m ∷ ns) = rw (comma_list-tail m ns) refl

later_lem :
    (m : Map) (flags : ℕ) (d : Bytes)
    → flags_loop m flags (some d) false ≡ ok (some (d ++ comma_tail (set_names m flags)))
unfolding flags_loop append_format
later_lem [] flags d = rw append-nil refl
later_lem ((name, num) ∷ m) flags d = elim (Bool-cases (bit_and flags num == 0)) [
  | inl e ↦ rw (flags_loop, set_names, e) (later_lem m flags d)
  | inr e ↦
      rw
        (
          flags_loop,
          set_names,
          e,
          vsnprintf-two (codes ", ") name,
          appendf-some d (codes ", " ++ name),
          later_lem m flags (d ++ (codes ", " ++ name)),
          append_assoc,
        )
        refl
]

-- NULL for no names.
abbrev pub list_of : List Bytes → Option Bytes
list_of [] = none
list_of (n ∷ ns) = some (comma_list (n ∷ ns))

-- `get_personality_flags` gives the names of all flags that are set, in the order of the map, with a
-- comma and a space between them, and NULL if no flag is set.
pub get_personality_flags_lem :
    (m : Map) (flags : ℕ) → get_personality_flags m flags ≡ ok (list_of (set_names m flags))
unfolding get_personality_flags flags_loop append_format
get_personality_flags_lem [] flags = refl
get_personality_flags_lem ((name, num) ∷ m) flags = elim (Bool-cases (bit_and flags num == 0)) [
  | inl e ↦ rw (flags_loop, set_names, e) (get_personality_flags_lem m flags)
  | inr e ↦
      rw
        (
          flags_loop,
          set_names,
          e,
          vsnprintf-two [] name,
          appendf-none name,
          later_lem m flags name,
          comma_list-tail name (set_names m flags),
        )
        refl
]
