-- ===== src/Program/Show/Machine/Runs.antt =====
-- The documents that `show_platform` and `show_time` display.
use procenv.Prelude.{
  ℕ, zero, suc, ◌-◌, ◌*◌, ◌%◌, ◌^◌, ◌≤◌, ◌≡◌, refl, Option, none, some, [], ◌∷◌, drop_last, Bool,
  false, if◌then◌else◌, ltb, ℤ, pos, negsuc, codes, arith, ◌+ℤ◌,
}
use procenv.Pstring.{Decode}
use procenv.Printf.{str, int, uint}
use procenv.Document.{Node, section, nil, cons}
use procenv.Program.Emits.{Emits, nodes, ◌then◌, Emits-entryf, Emits-header}
use procenv.Program.Show.{Ops}
use procenv.Program.Show.Machine.{
  Target, Clock, is_big_endian, data_model, show_data_model, show_kernel_bits, show_platform,
  show_time,
}
use procenv.Program.Show.Meta.Runs.{field, string_field}

module _ (decode : Decode) where
  abbrev pub kernel_node : Option ℤ → Node
  kernel_node (some (pos n)) = field decode (codes "kernel bits") (codes "%lu") (uint n ∷ [])
  kernel_node (some (negsuc (suc n))) =
      field decode (codes "kernel bits") (codes "%lu") (uint (2 ^ 64 - 2 - n) ∷ [])
  kernel_node _ = string_field decode (codes "kernel bits") (codes "unknown")

  abbrev pub platform_node : Option ℤ → Target → Node
  platform_node bits t = section (codes "platform") (
      nodes (
        string_field decode (codes "operating system") t.os
        ∷ string_field decode (codes "architecture") t.arch
        ∷ kernel_node bits
        ∷ field decode (codes "executable bits") (codes "%lu")
            (uint (t.sizeof_pointer * t.char_bit) ∷ [])
        ∷ string_field decode (codes "code endian")
            (if is_big_endian t.one then codes "big" else codes "little")
        ∷ field decode (codes "data model") (codes "%s (%d/%d/%d)") (
            str (data_model t)
            ∷ int (pos t.sizeof_int)
            ∷ int (pos t.sizeof_long)
            ∷ int (pos t.sizeof_pointer)
            ∷ [])
        ∷ []))

  abbrev pub time_node : Clock → Node
  time_node c = section (codes "time") (
      nodes (
        field decode (codes "raw") (codes "%u.%lu") (uint (c.tv_sec % 2 ^ 32) ∷ uint c.tv_nsec ∷ [])
        ∷ string_field decode (codes "local") (drop_last c.asctime)
        ∷ field decode (codes "ISO") (codes "%4.4d-%2.2d-%2.2dT%2.2d:%2.2d") (
            int (pos 1900 +ℤ c.tm.tm_year)
            ∷ int (pos c.tm.tm_mon)
            ∷ int (pos c.tm.tm_mday)
            ∷ int (pos c.tm.tm_hour)
            ∷ int (pos c.tm.tm_min)
            ∷ [])
        ∷ []))

module _ (decode : Decode) (iswprint : ℕ → Bool) where
  kernel-Emits :
      (bits : Option ℤ)
      → Emits decode iswprint
          (show_kernel_bits decode iswprint bits)
          (cons (kernel_node decode bits) nil)
  unfolding show_kernel_bits
  kernel-Emits none = Emits-entryf decode iswprint _ _ _ refl
  kernel-Emits (some (pos n)) = Emits-entryf decode iswprint _ _ _ refl
  kernel-Emits (some (negsuc zero)) = Emits-entryf decode iswprint _ _ _ refl
  kernel-Emits (some (negsuc (suc n))) = Emits-entryf decode iswprint _ _ _ refl

  pub show_platform-Emits :
      (ops : Ops) (t : Target)
      → t.sizeof_pointer ≤ 8
      → Emits decode iswprint
          (show_platform decode iswprint ops t)
          (cons (platform_node decode ops.get_kernel_bits t) nil)
  unfolding show_platform
  show_platform-Emits ops t h =
      let entry = Emits-entryf decode iswprint in
      let small : ltb 8 t.sizeof_pointer ≡ false = ground arith in
      let model : Emits decode iswprint (show_data_model decode iswprint t) (
          cons
            (field decode (codes "data model") (codes "%s (%d/%d/%d)") (
              str (data_model t)
              ∷ int (pos t.sizeof_int)
              ∷ int (pos t.sizeof_long)
              ∷ int (pos t.sizeof_pointer)
              ∷ []))
            nil) =
        unfold show_data_model in rw (show_data_model, small) (entry _ _ _ refl) in
      Emits-header decode iswprint (codes "platform") (
        entry _ _ _ refl
        then entry _ _ _ refl
        then kernel-Emits ops.get_kernel_bits
        then entry _ _ _ refl
        then entry _ _ _ refl
        then model)

  pub show_time-Emits :
      (c : Clock)
      → Emits decode iswprint
          (show_time decode iswprint (some (some c)))
          (cons (time_node decode c) nil)
  unfolding show_time
  show_time-Emits c =
      let entry = Emits-entryf decode iswprint in
      Emits-header decode iswprint (codes "time")
        (entry _ _ _ refl then entry _ _ _ refl then entry _ _ _ refl)
