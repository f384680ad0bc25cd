-- ===== src/StringUtil/Fresh.antt =====
-- A pstring that `wappendva` makes from a NULL pointer. Its length counts the terminator.
use procenv.Prelude.{
  ℕ, zero, suc, ◌+◌, ◌-◌, ◌*◌, ◌<◌, ◌≡◌, ◌≢◌, refl, none, some, [], ◌∷◌, length, replicate, Text,
  NoNul, arith, ok,
}
use procenv.Memory.{zeros, resize, written}
use procenv.Memory.Laws.{resize-written, read_text-written}
use procenv.Pstring.{PString, sizeof_wchar, text_of}
use procenv.StringUtil.{
  default_alloc_guess_size, pstring_of_buffer, wappendva_finish, wappendva, wappendf,
}
use procenv.StringUtil.Doc.{wappendva_loop_lem, fits_size}

abbrev pub fresh_of : Text → PString
fresh_of x = record {
  buf = some (written x (some 0 ∷ some 0 ∷ []));
  len = length x + 1;
  size = (1 + (length x + 1)) * sizeof_wchar;
}

two_zeros : (k : ℕ) → 1 < k → resize 2 (zeros k) ≡ some 0 ∷ some 0 ∷ []
two_zeros zero h = absurd (omega arith)
two_zeros (suc zero) h = absurd (omega arith)
two_zeros (suc (suc k)) h = refl

pub pstring_of_buffer-fresh_of :
    (x : Text) (cells : ℕ) → length x < cells → pstring_of_buffer x cells ≡ fresh_of x
unfolding pstring_of_buffer
pstring_of_buffer-fresh_of x cells h =
    let size : 1 + (length x + 1) ≡ length x + 2 = omega arith in
    rw (
      size,
      resize-written x 2 (zeros (1 + cells - length x)),
      two_zeros (1 + cells - length x) (omega arith),
    )

-- `wappendf` to a NULL pstring makes one of the whole text.
pub wappendf-fresh_of : (x : Text) → wappendf none (some x) ≡ ok (some (fresh_of x))
unfolding wappendf wappendva wappendva_finish
wappendf-fresh_of x =
    let (cells, runs, fits) =
      wappendva_loop_lem (suc (length x)) x default_alloc_guess_size (omega arith) (omega arith) in
    rw (runs, wappendva_finish, fits_size x cells fits, pstring_of_buffer-fresh_of x cells fits)

pub text_of-fresh_of : (x : Text) → NoNul x → text_of (fresh_of x) ≡ ok x
text_of-fresh_of x h = rw (read_text-written x (some 0 ∷ []) h)

pub NoNul-replicate : (n c : ℕ) → c ≢ 0 → NoNul (replicate n c)
NoNul-replicate zero c h = tt
NoNul-replicate (suc n) c h = (h, NoNul-replicate n c h)
