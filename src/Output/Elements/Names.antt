-- ===== src/Output/Elements/Names.antt =====
-- The encoded names and values of `name_to_wide_name` and `entry` of src/output.c.
use procenv.Prelude.{
  ℕ, suc, ◌≡◌, refl, Bool, ◌==◌, false, some, List, [], ◌∷◌, length, Bytes, Text, NoNul, ok, arith,
}
use procenv.Memory.Laws.{read_text-written}
use procenv.Pstring.{Decode, char_to_wchar, char_to_pstring, pstring_create, text_of}
use procenv.StringUtil.{Expansion, wmappendva, wappendf}
use procenv.StringUtil.Fresh.{fresh_of, wappendf-fresh_of, text_of-fresh_of}
use procenv.Output.{OutputFormat}
use procenv.Output.Elements.{name_to_wide_name, name_text, value_text}
use procenv.Output.Encode.{TranslateMapEntry}
use procenv.Output.Encode.Translate.{translate}
use procenv.Output.Encode.Codes.{Escapes, HasShortCodes, encoded, encode_string_lem}

module _ (decode : Decode) (iswprint : ℕ → Bool) {f : OutputFormat} {m : List TranslateMapEntry}
    (e : Escapes f m) where
  char_to_wchar-some :
      (str : Bytes) (c : ℕ) (t : Text)
      → decode str ≡ some (c ∷ t)
      → char_to_wchar decode str ≡ some (c ∷ t)
  unfolding char_to_wchar
  char_to_wchar-some str c t h =
      let not_zero : (suc (length t) == 0) ≡ false = ground arith in
      rw (char_to_wchar, h, not_zero) refl

  -- A name that converts to a text that is not empty is written as the encoded text. Conditions: as
  -- for `encode_string`.
  pub name_text_lem :
      (name : Bytes) (c : ℕ) (t : Text)
      → decode name ≡ some (c ∷ t)
      → NoNul (c ∷ t)
      → HasShortCodes iswprint f (translate m (c ∷ t))
      → name_text decode iswprint f name ≡ ok (encoded iswprint f m (c ∷ t))
  unfolding name_text name_to_wide_name char_to_pstring pstring_create
  name_text_lem name c t h n short =
      let x = c ∷ t in
      let reads : text_of (pstring_create x) ≡ ok x = rw (read_text-written x [] n) refl in
      let p = encode_string_lem iswprint e (pstring_create x) x reads (omega arith) n short in
      rw (name_text, name_to_wide_name, char_to_wchar-some name c t h, p.1, p.2) refl

  -- A value whose format converts to a text that is not empty, and expands to a text, is written as
  -- the encoded text. Conditions: as for `encode_string`.
  pub value_text_lem :
      (fmt : Bytes) (expand : Text → Expansion) (c : ℕ) (w v : Text)
      → decode fmt ≡ some (c ∷ w)
      → expand (c ∷ w) ≡ some v
      → NoNul v
      → HasShortCodes iswprint f (translate m v)
      → value_text decode iswprint f fmt expand ≡ ok (encoded iswprint f m v)
  unfolding value_text wmappendva wappendf
  value_text_lem fmt expand c w v h x n short =
      let p = encode_string_lem iswprint e (fresh_of v) v (text_of-fresh_of v n) refl n short in
      rw (value_text, wmappendva, char_to_wchar-some fmt c w h, x, wappendf-fresh_of v, p.1, p.2)
        refl
