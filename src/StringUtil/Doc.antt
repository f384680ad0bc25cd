-- ===== src/StringUtil/Doc.antt =====
-- The output document: a pstring whose length leaves its terminator out. On it the append functions
-- are concatenation of texts.
use Prim.Native.Nat.add
use procenv.Prelude.{
  true, ℕ, zero, suc, ◌+◌, ◌-◌, ◌*◌, ◌<◌, ◌≡◌, ap, sym, ◌∙◌, some, List, [], ◌∷◌, ◌++◌, append-nil,
  length, length-replicate, length-append, Text, false, arith, ok, ◌==◌, ltb, ltb→lt, Bool-cases,
  inl, inr, take_all,
}
use procenv.Memory.{Cell, resize, zeros, written}
use procenv.Memory.Laws.{
  resize-written, store-written, load-written, wcsncat-written, written-append, length-resize,
  length-store, overwrite_exact, load_end, store_end,
}
use procenv.Pstring.{PString, sizeof_wchar, pstring_new, text_of}
use procenv.StringUtil.{
  wappendn_write, wappendn_to, wappendn, wappend, default_alloc_guess_size, wappendva_loop,
  wappendva_finish, wappendva, wappendf, pappend, pappend_to,
}

-- The document that holds a text. Before anything is written it has no buffer.
abbrev pub doc_of : Text → PString
doc_of [] = pstring_new
doc_of (c ∷ t) = record {
  buf = some (written (c ∷ t) (some 0 ∷ []));
  len = suc (length t);
  size = (1 + suc (length t)) * sizeof_wchar;
}

-- The steps of `wappendn` on a buffer with room: the text `t`, a terminator and `m` cells.
abbrev filled : Text → Text → PString
filled t src = record {
  buf = some (written (t ++ src) (some 0 ∷ []));
  len = length t + length src;
  size = (1 + (length t + length src)) * sizeof_wchar;
}

write-filled :
    (t : Text) (c : ℕ) (src : Text) (rest : List Cell)
    → length rest ≡ suc (length src)
    → wappendn_write (length t) (written t (some 0 ∷ rest)) (c ∷ src) (suc (length src))
      ≡ ok (some (filled t (c ∷ src)))
unfolding wappendn_write
write-filled t c src rest h =
    let (rest', stored, same) = length-store (length src) 0 rest (omega arith) in
    rw (
      store-written t (suc (length src)) 0 (some 0 ∷ rest),
      stored,
      wcsncat-written t (c ∷ src) (suc (length src)) (some 0 ∷ rest'),
      take_all (length src) src (omega arith),
      overwrite_exact src rest' (same ∙ h),
      load-written t (suc (length src)) (some c ∷ written src (some 0 ∷ [])),
      load_end src (some 0) [],
      written-append t (c ∷ src) (some 0 ∷ []),
    )

filled-doc_of : (t src : Text) → 0 < length t + length src → filled t src ≡ doc_of (t ++ src)
filled-doc_of [] [] h = absurd (omega arith)
filled-doc_of [] (c ∷ src) h = rw add.zero
filled-doc_of (x ∷ t) src h = rw (length-append t src, add.suc)

suc-ne-zero : (n : ℕ) → (suc n == 0) ≡ false
suc-ne-zero n = ground arith

-- On a document `wappendn` of the first `length src` characters is concatenation.
pub wappendn-doc_of :
    (t src : Text) → wappendn (some (doc_of t)) src (length src) ≡ ok (some (doc_of (t ++ src)))
unfolding wappendn wappendn_to
wappendn-doc_of t [] = rw append-nil
wappendn-doc_of [] (c ∷ src) =
    let cells : 1 + (0 + suc (length src)) ≡ suc (suc (length src)) = omega arith in
    rw (suc-ne-zero (length src), cells)
      (write-filled [] c src (zeros (suc (length src)))
          (length-replicate (suc (length src)) (some 0))
        ∙ ap (λ d. ok (some d)) (filled-doc_of [] (c ∷ src) (omega arith)))
wappendn-doc_of (x ∷ t) (c ∷ src) =
    let cells : 1 + (suc (length t) + suc (length src)) ≡ length (x ∷ t) + suc (suc (length src)) =
      omega arith in
    rw
      (
        suc-ne-zero (length src),
        suc-ne-zero (length t),
        cells,
        resize-written (x ∷ t) (suc (suc (length src))) (some 0 ∷ []),
      )
      (write-filled (x ∷ t) c src (resize (suc (length src)) [])
          (length-resize (suc (length src)) [])
        ∙ ap (λ d. ok (some d)) (filled-doc_of (x ∷ t) (c ∷ src) (omega arith)))

-- `wappend` to a document, which may be empty, is concatenation.
pub wappend-doc_of : (t src : Text) → wappend (some (doc_of t)) src ≡ ok (some (doc_of (t ++ src)))
unfolding wappend
wappend-doc_of t src = wappendn-doc_of t src

-- The loop ends at the first size from `len` on at which the text fits.
pub wappendva_loop_lem :
    (fuel : ℕ) (x : Text) (len : ℕ)
    → length x + 1 < fuel + len
    → 0 < fuel
    → (cells : ℕ) × (wappendva_loop fuel (some x) len ≡ ok cells) × (length x < cells)
unfolding wappendva_loop
wappendva_loop_lem zero x len h p = absurd (omega arith)
wappendva_loop_lem (suc fuel) x len h p = elim (Bool-cases (ltb (length x) len)) [
  | inl fits ↦ (len, rw fits, ltb→lt (length x) len fits)
  | inr more ↦ rw more (wappendva_loop_lem fuel x (len + 1) (ground arith) (ground arith))
]

pub fits_size : (x : Text) (cells : ℕ) → length x < cells → ltb (length x) cells ≡ true
fits_size x cells h = ground arith

-- With more rounds than the text has characters `wappendva` to a document is concatenation.
pub wappendva-doc_of :
    (fuel : ℕ) (t x : Text)
    → length x < fuel
    → wappendva fuel (some (doc_of t)) (some x) ≡ ok (some (doc_of (t ++ x)))
unfolding wappendva wappendva_finish
wappendva-doc_of fuel t x h =
    let (cells, runs, fits) =
      wappendva_loop_lem fuel x default_alloc_guess_size (omega arith) (omega arith) in
    rw (runs, wappendva_finish, fits_size x cells fits) (wappend-doc_of t x)

-- `wappendf` to a document is concatenation with the text that its format expands to.
pub wappendf-doc_of :
    (t x : Text) → wappendf (some (doc_of t)) (some x) ≡ ok (some (doc_of (t ++ x)))
unfolding wappendf
wappendf-doc_of t x = wappendva-doc_of (suc (length x)) t x (omega arith)

-- `pappend` to a document that is not empty is concatenation with the text of the other pstring,
-- whose length counts the terminator.
pub pappend-doc_of :
    (y : ℕ) (t x : Text) (src : PString)
    → src.len ≡ length x + 1
    → text_of src ≡ ok x
    → pappend (some (doc_of (y ∷ t))) src ≡ ok (some (doc_of ((y ∷ t) ++ x)))
unfolding pappend pappend_to
pappend-doc_of y t x src l e =
    let some_len : (src.len == 0) ≡ false = ground arith in
    let total : suc (length t) + src.len - 1 ≡ length (y ∷ t) + length x = omega arith in
    let cells : 1 + (suc (length t) + src.len - 1) ≡ length (y ∷ t) + suc (length x) =
      omega arith in
    let size : suc (length t) + suc (length x) ≡ 1 + (suc (length t) + length x) = omega arith in
    rw
      (
        some_len,
        cells,
        total,
        resize-written (y ∷ t) (suc (length x)) (some 0 ∷ []),
        e,
        wcsncat-written (y ∷ t) x src.len (some 0 ∷ resize (length x) []),
        take_all src.len x (omega arith),
        overwrite_exact x (some 0 ∷ resize (length x) []) (ap suc (length-resize (length x) [])),
        store-written (y ∷ t) (length x) 0 (written x (some 0 ∷ [])),
        store_end x,
        size,
        sym (written-append t x (some 0 ∷ [])),
      )
      (ap (λ d. ok (some d)) (filled-doc_of (y ∷ t) x (omega arith)))
