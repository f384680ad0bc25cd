-- ===== src/Output/Encode/Codes.antt =====
-- What `encode_string` of src/output.c does to a text.
use Prim.Native.Nat.add
use procenv.Prelude.{
  ℕ, zero, suc, ◌+◌, ◌-◌, ◌*◌, ◌/◌, ◌%◌, ◌≤◌, ◌<◌, ◌≡◌, ◌≢◌, refl, some, List, [], ◌∷◌, ◌++◌,
  append-nil, append_assoc, length, length-append, Text, NoNul, All, All-append, Outcome, ok, arith,
  Bool, Bool-cases, inl, inr, ◌==◌, leb, true, false, if◌then◌else◌,
}
use procenv.Memory.{zeros, written, store, write_at}
use procenv.Memory.Laws.{read_text-written}
use procenv.Pstring.{PString, sizeof_wchar, pstring_create, text_of, then_do}
use procenv.Output.{OutputFormat, json, xml}
use procenv.Output.Encode.{
  json_map, xml_map, TranslateMapEntry, hex_digit, hex_onto, zero_padded, hex, non_printable_code,
  non_printables, encode_pass, encode_non_printables, encode_string, output_translate,
  translate_map,
}
use procenv.Output.Encode.Translate.{
  overwrite-zeros, translate, IsTable, json_map-IsTable, xml_map-IsTable, output_translate_lem,
  length-translate, NoNul-translate,
}

digit-ne-zero : (d : ℕ) → hex_digit d ≢ 0
digit-ne-zero d h = ground arith

NoNul-hex_onto : (fuel n : ℕ) (out : Text) → NoNul out → NoNul (hex_onto fuel n out)
unfolding hex_onto
NoNul-hex_onto zero n out h = h
NoNul-hex_onto (suc fuel) n out h = elim (Bool-cases (n == 0)) [
  | inl e ↦ rw e h
  | inr e ↦
      rw e (NoNul-hex_onto fuel (n / 16) (hex_digit (n % 16) ∷ out) (digit-ne-zero (n % 16), h))
]

NoNul-zero_padded : (n : ℕ) (x : Text) → NoNul x → NoNul (zero_padded n x)
unfolding zero_padded
NoNul-zero_padded zero x h = h
NoNul-zero_padded (suc n) x h = elim (Bool-cases (leb (suc n) (length x))) [
  | inl e ↦ rw e h
  | inr e ↦ rw e (omega arith, NoNul-zero_padded n x h)
]

NoNul-hex : (precision n : ℕ) → NoNul (hex precision n)
NoNul-hex precision n = NoNul-zero_padded precision _ (NoNul-hex_onto 8 n [] tt)

NoNul-entity : (c : ℕ) → NoNul (b'&' ∷ b'#' ∷ b'x' ∷ (hex 2 c ++ b';' ∷ []))
NoNul-entity c = (
  omega arith,
  (
    omega arith,
    (omega arith, All-append (λ c. c ≢ 0) (hex 2 c) (b';' ∷ []) (NoNul-hex 2 c) (omega arith, tt)),
  ),
)

NoNul-code : (f : OutputFormat) (c : ℕ) → NoNul (non_printable_code f c)
unfolding non_printable_code
NoNul-code json c = (omega arith, (omega arith, NoNul-hex 4 c))
NoNul-code OutputFormat.text c = NoNul-entity c
NoNul-code OutputFormat.crumb c = NoNul-entity c
NoNul-code xml c = NoNul-entity c

module _ (iswprint : ℕ → Bool) (f : OutputFormat) where
  -- The text with a code for every character that cannot be printed.
  unfoldable pub coded : Text → Text
  coded [] = []
  coded (c ∷ t) = (if iswprint c then c ∷ [] else non_printable_code f c) ++ coded t

  -- The codes that are used are as short as the code allows for.
  abbrev pub HasShortCodes : Text → Type 0
  HasShortCodes t = All (λ c. iswprint c ≡ false → length (non_printable_code f c) ≤ 6) t

  length-coded :
      (t : Text)
      → HasShortCodes t
      → length (coded t) + non_printables iswprint t ≤ length t + non_printables iswprint t * 6
  unfolding coded non_printables
  length-coded [] h = omega arith
  length-coded (c ∷ t) h = elim (Bool-cases (iswprint c)) [
    | inl p ↦ rw p (omega (arith, length-coded t h.1))
    | inr n ↦
        rw n (
          omega
            (arith, length-coded t h.1, h.0 n, length-append (non_printable_code f c) (coded t)))
  ]

  non_printables-le : (t : Text) → non_printables iswprint t ≤ length t
  unfolding non_printables
  non_printables-le [] = omega arith
  non_printables-le (c ∷ t) = ground (arith, non_printables-le t)

  coded-same : (t : Text) → non_printables iswprint t ≡ 0 → coded t ≡ t
  unfolding coded non_printables
  coded-same [] h = refl
  coded-same (c ∷ t) h = elim (Bool-cases (iswprint c)) [
    | inl p ↦ let h' = rw p at h in rw (p, coded-same t (omega arith)) refl
    | inr n ↦ let h' = rw n at h in absurd (omega arith)
  ]

  write_at-written :
      (done x : Text) (k : ℕ)
      → write_at (length done) x (written done (zeros (suc (length x + k))))
        ≡ some (written (done ++ x) (zeros (suc k)))
  write_at-written [] x k = overwrite-zeros x k
  write_at-written (d ∷ done) x k = rw (write_at-written done x k) refl

  store-zeros :
      (done : Text) (c r : ℕ)
      → store (length done) c (written done (zeros (suc r)))
        ≡ some (written (done ++ c ∷ []) (zeros r))
  store-zeros [] c r = refl
  store-zeros (d ∷ done) c r = rw (store-zeros done c r) refl

  leb-less : (n l : ℕ) → l < n → leb n l ≡ false
  leb-less n l h = ground arith

  -- The last loop, in a buffer with room for the codes and a terminator.
  encode_pass-written :
      (new_size : ℕ) (t done : Text) (k : ℕ)
      → HasShortCodes t
      → 6 < new_size
      → encode_pass iswprint f new_size
          (written done (zeros (length (coded t) + suc k)))
          (length done)
          t
        ≡ ok (written (done ++ coded t) (zeros (suc k)))
  unfolding encode_pass coded
  encode_pass-written n [] done k h le = rw (add.zero, append-nil) refl
  encode_pass-written n (c ∷ t) done k h le = elim (Bool-cases (iswprint c)) [
    | inl p ↦
        let len : length (done ++ c ∷ []) ≡ length done + 1 = length-append done (c ∷ []) in
        rw (p, add.suc, store-zeros done c (length (coded t) + suc k))
          (rw (len, append_assoc) at (encode_pass-written n t (done ++ c ∷ []) k h.1 le))
    | inr q ↦
        let code = non_printable_code f c in
        let len = length-append done code in
        let room : length (code ++ coded t) + suc k ≡ suc (length code + (length (coded t) + k)) =
          omega (arith, length-append code (coded t)) in
        let left : length (coded t) + suc k ≡ suc (length (coded t) + k) = omega arith in
        rw
          (
            q,
            leb-less n (length code) (omega (arith, h.0 q)),
            room,
            write_at-written done code (length (coded t) + k),
          )
          (rw (len, append_assoc, left) at (encode_pass-written n t (done ++ code) k h.1 le))
  ]

  -- The codes hold no nul.
  NoNul-coded : (t : Text) → NoNul t → NoNul (coded t)
  unfolding coded
  NoNul-coded [] h = tt
  NoNul-coded (c ∷ t) h = elim (Bool-cases (iswprint c)) [
    | inl p ↦ rw p (h.0, NoNul-coded t h.1)
    | inr q ↦ rw q (
        All-append (λ c. c ≢ 0) (non_printable_code f c) (coded t) (NoNul-code f c)
          (NoNul-coded t h.1))
  ]

  -- What the result of an encoding holds.
  abbrev pub Holds : Outcome PString → Text → Type 0
  Holds o u = (p : PString) × (o ≡ ok p) × (text_of p ≡ ok u) × (p.len ≡ length u + 1)

  encode_non_printables-Holds :
      (t : Text)
      → NoNul t
      → HasShortCodes t
      → 0 < length t
      → Holds (encode_non_printables iswprint f (pstring_create t)) (coded t)
  unfolding encode_non_printables pstring_create
  encode_non_printables-Holds t h short some_text =
      elim (Bool-cases (non_printables iswprint t == 0)) [
        | inl none' ↦ (
          pstring_create t,
          rw (read_text-written t [] h, none') refl,
          rw (coded-same t (ground arith)) (rw (read_text-written t [] h) refl),
          rw (coded-same t (ground arith)) (omega arith),
        )
        | inr some' ↦
            let count = non_printables iswprint t in
            let new_size = (1 + length t - count) + count * 6 in
            let k = new_size - length (coded t) in
            let some_count : 0 < count = ground arith in
            let fits = length-coded t short in
            let le = non_printables-le t in
            let room : 1 + new_size ≡ length (coded t) + suc k = omega arith in
            let runs : encode_pass iswprint f new_size (zeros (length (coded t) + suc k)) 0 t
                ≡ ok (written (coded t) (zeros (suc k))) =
              encode_pass-written new_size t [] k short (omega arith) in
            let reads = read_text-written (coded t) (zeros k) (NoNul-coded t h) in
            (
              record {
                buf = some (written (coded t) (zeros (suc k)));
                len = length (coded t) + 1;
                size = (1 + new_size) * sizeof_wchar;
              },
              rw (read_text-written t [] h, some', room, runs, reads) refl,
              rw reads refl,
              refl,
            )
      ]

  encode_translated :
      (m : List TranslateMapEntry) (table : IsTable m)
      → translate_map f ≡ ok m
      → (s : PString) (t : Text) → text_of s ≡ ok t
      → s.len ≡ length t + 1
      → NoNul t
      → HasShortCodes (translate m t)
      → 0 < length t
      → Holds
          (then_do (output_translate f s) (encode_non_printables iswprint f))
          (coded (translate m t))
  encode_translated m table e s t is_t l h short some_text =
      rw (output_translate_lem m table f e s t is_t l) (
        encode_non_printables-Holds (translate m t) (NoNul-translate m table t h) short
          (omega (arith, length-translate m table t)))

-- The formats that replace characters, with their tables.
pub data Escapes : OutputFormat → List TranslateMapEntry → Type 0 where
  as_json : Escapes json json_map
  as_xml : Escapes xml xml_map

-- What a text is encoded as.
abbrev pub encoded : (ℕ → Bool) → OutputFormat → List TranslateMapEntry → Text → Text
encoded iswprint f m t = coded iswprint f (translate m t)

-- `encode_string` in JSON and XML output replaces the characters of the format's table, and then puts
-- codes for those that cannot be printed. Its result has a length that counts the terminator.
-- Conditions: so does the length of the pstring given, its text holds no nul, and no code is longer
-- than the six characters that the code allows for.
pub encode_string_lem :
    (iswprint : ℕ → Bool) {f : OutputFormat} {m : List TranslateMapEntry}
    → Escapes f m
    → (s : PString) (t : Text) → text_of s ≡ ok t
    → s.len ≡ length t + 1
    → NoNul t
    → HasShortCodes iswprint f (translate m t)
    → Holds iswprint f (encode_string iswprint f s) (encoded iswprint f m t)
unfolding encode_string coded translate
encode_string_lem iswprint e s [] is_t l h short =
    let empty : leb s.len 1 ≡ true = ground arith in (s, rw empty refl, is_t, l)
encode_string_lem iswprint Escapes.as_json s (c ∷ t) is_t l h short =
    let long : leb s.len 1 ≡ false = ground arith in
    rw long (
      encode_translated iswprint json json_map json_map-IsTable refl s (c ∷ t) is_t l h short
        (omega arith))
encode_string_lem iswprint Escapes.as_xml s (c ∷ t) is_t l h short =
    let long : leb s.len 1 ≡ false = ground arith in
    rw long (
      encode_translated iswprint xml xml_map xml_map-IsTable refl s (c ∷ t) is_t l h short
        (omega arith))
