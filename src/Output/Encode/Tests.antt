-- ===== src/Output/Encode/Tests.antt =====
-- Encodings of short texts.
use procenv.Prelude.{
  ◌≤◌, ◌<◌, true, inl, inr, ℕ, ◌≡◌, refl, Bool, leb, some, [], ◌∷◌, Text, ok, arith,
}
use procenv.Memory.{written}
use procenv.Pstring.{PString, Decode, pstring_create}
use procenv.Output.{json, xml}
use procenv.Output.Encode.{
  json_map, xml_map, output_translate, encode_string, non_printable_code, hex_onto, zero_padded,
  replacement,
}
use procenv.Output.Encode.Translate.{translate, xml_map-IsTable, output_translate_lem}
use procenv.Output.Encode.Codes.{Escapes, Holds, encoded, encode_string_lem}
use procenv.Output.Encode.Read.{
  json_read, doubled, encode_string-json_read, XmlReads, encode_string-XmlReads,
}
use procenv.Output.Elements.{value_text}
use procenv.Output.Elements.Names.{value_text_lem}

-- A quote, a backslash, a bell and a letter.
abbrev sample : Text
sample = 34 ∷ 92 ∷ 7 ∷ b'a' ∷ []

abbrev prints : ℕ → Bool
prints c = leb 32 c

abbrev one_byte : Decode
one_byte t = some t

abbrev held : PString
held = record { buf = some (written sample (some 0 ∷ [])); len = 5; size = 20 }

output_translate_example :
    output_translate xml held ≡ ok (pstring_create (translate xml_map sample))
output_translate_example =
    output_translate_lem xml_map xml_map-IsTable xml refl held sample refl refl

-- A quote, a backslash and a letter.
abbrev plain_text : Text
plain_text = 34 ∷ 92 ∷ b'a' ∷ []

abbrev plain_held : PString
plain_held = pstring_create plain_text

prints-ascii : (c : ℕ) → (32 ≤ c) × (c < 127) → prints c ≡ true
prints-ascii c h = ground arith

encode_string-json_read_example :
    (x : Text) × Holds prints json (encode_string prints json plain_held) x
    × (json_read x ≡ some (doubled plain_text))
unfolding pstring_create
encode_string-json_read_example =
    encode_string-json_read prints prints-ascii plain_held plain_text refl refl
      (omega arith, (omega arith, (omega arith, tt))) (refl, (refl, (refl, tt)))

encode_string-XmlReads_example :
    (x : Text) × Holds prints xml (encode_string prints xml plain_held) x × XmlReads x plain_text
unfolding pstring_create
encode_string-XmlReads_example =
    encode_string-XmlReads prints prints-ascii plain_held plain_text refl refl
      (
        inr (inr (inr (inl (omega arith, omega arith)))),
        (
          inr (inr (inr (inl (omega arith, omega arith)))),
          (inr (inr (inr (inl (omega arith, omega arith)))), tt),
        ),
      )
      (refl, (refl, (refl, tt)))

encode_string_example :
    Holds prints json (encode_string prints json held) (encoded prints json json_map sample)
unfolding translate replacement non_printable_code hex_onto zero_padded
encode_string_example =
    encode_string_lem prints Escapes.as_json held sample refl refl
      (omega arith, (omega arith, (omega arith, (omega arith, tt))))
      (
        λ p. omega arith,
        (
          λ p. omega arith,
          (
            λ p. omega arith,
            (
              λ p. omega arith,
              (λ p. omega arith, (λ p. omega arith, (λ p. omega arith, (λ p. omega arith, tt)))),
            ),
          ),
        ),
      )

value_text_example :
    value_text one_byte prints json (b'x' ∷ []) (λ w. some sample)
    ≡ ok (encoded prints json json_map sample)
unfolding translate replacement non_printable_code hex_onto zero_padded
value_text_example =
    value_text_lem one_byte prints Escapes.as_json (b'x' ∷ []) (λ w. some sample) b'x' [] sample
      refl refl (omega arith, (omega arith, (omega arith, (omega arith, tt))))
      (
        λ p. omega arith,
        (
          λ p. omega arith,
          (
            λ p. omega arith,
            (
              λ p. omega arith,
              (λ p. omega arith, (λ p. omega arith, (λ p. omega arith, (λ p. omega arith, tt)))),
            ),
          ),
        ),
      )
