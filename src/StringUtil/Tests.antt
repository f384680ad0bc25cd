-- ===== src/StringUtil/Tests.antt =====
-- Runs of src/string-util.c on short strings.
use procenv.Prelude.{
  List, map, replicate, ◌≡◌, refl, true, false, none, some, [], ◌∷◌, ◌++◌, Text, arith, ok,
}
use procenv.StringUtil.Fields.{split_fields}
use procenv.StringUtil.Fields.Splits.{
  Piece, field_of, spread, last_field, prefixed, split_fields-spread, split_fields-loses,
}
use procenv.StringUtil.{wappendva, wappendf, pappend}
use procenv.StringUtil.Doc.{doc_of, wappendva-doc_of, pappend-doc_of}
use procenv.StringUtil.Fresh.{fresh_of, wappendf-fresh_of}

abbrev ab : Text
ab = b'a' ∷ b'b' ∷ []

-- Longer than the first guess of the size.
abbrev long : Text
long = b'0' ∷ b'1' ∷ b'2' ∷ b'3' ∷ b'4' ∷ b'5' ∷ b'6' ∷ b'7' ∷ b'8' ∷ b'9' ∷ []

wappendva-doc_of_example :
    wappendva 11 (some (doc_of ab)) (some long) ≡ ok (some (doc_of (ab ++ long)))
wappendva-doc_of_example = wappendva-doc_of 11 ab long (omega arith)

wappendf-fresh_of_example : wappendf none (some long) ≡ ok (some (fresh_of long))
wappendf-fresh_of_example = wappendf-fresh_of long

pappend-doc_of_example : pappend (some (doc_of ab)) (fresh_of ab) ≡ ok (some (doc_of (ab ++ ab)))
pappend-doc_of_example = pappend-doc_of b'a' (b'b' ∷ []) ab (fresh_of ab) refl refl

abbrev pieces : List Piece
pieces =
    record { first = b'a'; others = b'b' ∷ []; gap = 1 }
    ∷ record { first = b'c'; others = []; gap = 0 }
    ∷ []

-- "  ab  c d"
split_fields-spread_example :
    split_fields (replicate 2 b' ' ++ spread b' ' pieces (b'd' ∷ [])) b' ' true
    ≡ ok (map field_of pieces ++ last_field (b'd' ∷ []))
split_fields-spread_example =
    split_fields-spread b' ' pieces (b'd' ∷ []) 2 (omega arith)
      ((refl, (refl, tt)), ((refl, tt), tt)) (refl, tt)

-- "ab:c"
split_fields-loses_example :
    split_fields (b'a' ∷ ((b'b' ∷ []) ++ prefixed b':' ((b'c' ∷ []) ∷ []))) b':' false
    ≡ ok ((b'b' ∷ []) ∷ (b'c' ∷ []) ∷ [])
split_fields-loses_example =
    split_fields-loses b':' b'a' (b'b' ∷ []) ((b'c' ∷ []) ∷ []) (omega arith) (refl, tt)
      ((refl, tt), tt)
