-- ===== src/Output/Encode/Read.antt =====
-- Readers of encoded texts: what a JSON parser reads between two quotes, and an XML parser in a text.
use mathlib.Core.Option
use procenv.Prelude.{
  ◌+◌, ◌≤◌, ◌<◌, ◌⊎◌, subst, List, All, All-append, NoNul, length, ok, Bool, true, ltb, arith, ℕ,
  ◌≡◌, refl, Option, none, some, [], ◌∷◌, Text, Bool-cases, inl, inr, ◌==◌, ◌||◌, false,
  if◌then◌else◌, ==_iff,
}
use procenv.Pstring.{PString, text_of}
use procenv.Output.{OutputFormat, json, xml}
use procenv.Output.Encode.{encode_string, TranslateMapEntry, json_map, xml_map, replacement}
use procenv.Output.Encode.Translate.{translate, replaced}
use procenv.Output.Encode.Codes.{coded, HasShortCodes, Holds, Escapes, encode_string_lem}

-- A quote ends the string, so there is none; no control character may stand in it; a backslash
-- escapes a quote or a backslash. The other escapes are not read.
unfoldable pub json_read : Text → Option Text
json_read [] = some []
json_read (c ∷ []) = if ltb c 32 || (c == 34 || c == 92) then none else some (c ∷ [])
json_read (c ∷ d ∷ t) =
    let escaped = json_read t in
    let plain = json_read (d ∷ t) in
    if c == 92
    then (if d == 34 || d == 92 then Option.map (◌∷◌ d) escaped else none)
    else if ltb c 32 || c == 34
    then none
    else Option.map (◌∷◌ c) plain

-- Every backslash twice.
unfoldable pub doubled : Text → Text
doubled [] = []
doubled (c ∷ t) = if c == 92 then 92 ∷ 92 ∷ doubled t else c ∷ doubled t

read-plain :
    (c : ℕ) (t : Text)
    → ltb c 32 ≡ false
    → (c == 34) ≡ false
    → (c == 92) ≡ false
    → json_read (c ∷ t) ≡ Option.map (◌∷◌ c) (json_read t)
unfolding json_read
read-plain c [] l q b = rw (l, q, b) refl
read-plain c (d ∷ t) l q b = rw (l, q, b) refl

-- A JSON parser reads the translation of a text as that text with every backslash doubled.
json_read-translate :
    (t : Text) → All (λ c. 32 ≤ c) t → json_read (translate json_map t) ≡ some (doubled t)
unfolding json_read translate replacement doubled
json_read-translate [] h = refl
json_read-translate (c ∷ t) (l, h) = elim (Bool-cases (c == 34)) [
  | inl quote ↦ let e : c ≡ 34 = (==_iff c 34).0 quote in rw (e, json_read-translate t h) refl
  | inr other ↦ elim (Bool-cases (c == 92)) [
    | inl slash ↦ let e : c ≡ 92 = (==_iff c 92).0 slash in rw (e, json_read-translate t h) refl
    | inr plain ↦
        rw
          (
            other,
            plain,
            read-plain c (translate json_map t) (ground arith) other plain,
            json_read-translate t h,
          )
          refl
  ]
]

-- The characters that an XML document may hold.
abbrev pub IsXmlChar : ℕ → Type 0
IsXmlChar c =
    (c ≡ 9)
    ⊎ (c ≡ 10)
    ⊎ (c ≡ 13)
    ⊎ ((32 ≤ c) × (c ≤ 0xd7ff))
    ⊎ ((0xe000 ≤ c) × (c ≤ 0xfffd))
    ⊎ ((0x10000 ≤ c) × (c ≤ 0x10ffff))

-- What an XML parser reads in a text: characters that a document may hold and that are not marked
-- up, and the five entities.
pub data XmlReads : Text → Text → Type 0 where
  end : XmlReads [] []
  plain :
      {c : ℕ} {x t : Text}
      → IsXmlChar c
      → (c == 38 || (c == 60 || (c == 62 || (c == 34 || c == 39)))) ≡ false
      → XmlReads x t
      → XmlReads (c ∷ x) (c ∷ t)
  apos :
      {x t : Text} → XmlReads x t → XmlReads (b'&' ∷ b'a' ∷ b'p' ∷ b'o' ∷ b's' ∷ b';' ∷ x) (39 ∷ t)
  quot :
      {x t : Text} → XmlReads x t → XmlReads (b'&' ∷ b'q' ∷ b'u' ∷ b'o' ∷ b't' ∷ b';' ∷ x) (34 ∷ t)
  amp : {x t : Text} → XmlReads x t → XmlReads (b'&' ∷ b'a' ∷ b'm' ∷ b'p' ∷ b';' ∷ x) (38 ∷ t)
  lt : {x t : Text} → XmlReads x t → XmlReads (b'&' ∷ b'l' ∷ b't' ∷ b';' ∷ x) (60 ∷ t)
  gt : {x t : Text} → XmlReads x t → XmlReads (b'&' ∷ b'g' ∷ b't' ∷ b';' ∷ x) (62 ∷ t)

-- An XML parser reads the translation of a text as that text.
XmlReads-translate : (t : Text) → All IsXmlChar t → XmlReads (translate xml_map t) t
unfolding translate replacement
XmlReads-translate [] h = end
XmlReads-translate (c ∷ t) (ok_char, h) = elim (Bool-cases (c == 39)) [
  | inl is ↦ let e : c ≡ 39 = (==_iff c 39).0 is in rw e (apos (XmlReads-translate t h))
  | inr n39 ↦ elim (Bool-cases (c == 34)) [
    | inl is ↦ let e : c ≡ 34 = (==_iff c 34).0 is in rw e (quot (XmlReads-translate t h))
    | inr n34 ↦ elim (Bool-cases (c == 38)) [
      | inl is ↦ let e : c ≡ 38 = (==_iff c 38).0 is in rw e (amp (XmlReads-translate t h))
      | inr n38 ↦ elim (Bool-cases (c == 60)) [
        | inl is ↦ let e : c ≡ 60 = (==_iff c 60).0 is in rw e (lt (XmlReads-translate t h))
        | inr n60 ↦ elim (Bool-cases (c == 62)) [
          | inl is ↦ let e : c ≡ 62 = (==_iff c 62).0 is in rw e (gt (XmlReads-translate t h))
          | inr n62 ↦
              rw (n39, n34, n38, n60, n62)
                (plain ok_char (rw (n38, n60, n62, n34, n39) refl) (XmlReads-translate t h))
        ]
      ]
    ]
  ]
]

-- The replacements of a table are printable ASCII.
abbrev IsAscii : ℕ → Type 0
IsAscii c = (32 ≤ c) × (c < 127)

abbrev HasAscii : List TranslateMapEntry → Type 0
HasAscii = All (λ e. All IsAscii e.0)

xml_map-HasAscii : HasAscii xml_map
xml_map-HasAscii = (
  (
    (omega arith, omega arith),
    (
      (omega arith, omega arith),
      (
        (omega arith, omega arith),
        (
          (omega arith, omega arith),
          ((omega arith, omega arith), ((omega arith, omega arith), tt)),
        ),
      ),
    ),
  ),
  (
    (
      (omega arith, omega arith),
      (
        (omega arith, omega arith),
        (
          (omega arith, omega arith),
          (
            (omega arith, omega arith),
            ((omega arith, omega arith), ((omega arith, omega arith), tt)),
          ),
        ),
      ),
    ),
    (
      (
        (omega arith, omega arith),
        (
          (omega arith, omega arith),
          (
            (omega arith, omega arith),
            ((omega arith, omega arith), ((omega arith, omega arith), tt)),
          ),
        ),
      ),
      (
        (
          (omega arith, omega arith),
          (
            (omega arith, omega arith),
            ((omega arith, omega arith), ((omega arith, omega arith), tt)),
          ),
        ),
        (
          (
            (omega arith, omega arith),
            (
              (omega arith, omega arith),
              ((omega arith, omega arith), ((omega arith, omega arith), tt)),
            ),
          ),
          tt,
        ),
      ),
    ),
  ),
)

json_map-HasAscii : HasAscii json_map
json_map-HasAscii = (
  ((omega arith, omega arith), ((omega arith, omega arith), tt)),
  (
    (
      (omega arith, omega arith),
      ((omega arith, omega arith), ((omega arith, omega arith), ((omega arith, omega arith), tt))),
    ),
    tt,
  ),
)

xml-NoNul : (t : Text) → All IsXmlChar t → NoNul t
xml-NoNul [] h = tt
xml-NoNul (c ∷ t) (x, h) = (λ e. ground (arith, x, e), xml-NoNul t h)

json-NoNul : (t : Text) → All (λ c. 32 ≤ c) t → NoNul t
json-NoNul [] h = tt
json-NoNul (c ∷ t) (x, h) = (λ e. omega (arith, x, e), json-NoNul t h)

module _ (iswprint : ℕ → Bool) (ascii : (c : ℕ) → IsAscii c → iswprint c ≡ true) where
  abbrev Printable : Text → Type 0
  Printable = All (λ c. iswprint c ≡ true)

  ascii-Printable : (x : Text) → All IsAscii x → Printable x
  ascii-Printable [] h = tt
  ascii-Printable (c ∷ x) h = (ascii c h.0, ascii-Printable x h.1)

  replaced-Printable :
      (m : List TranslateMapEntry) (c : ℕ)
      → HasAscii m
      → iswprint c ≡ true
      → Printable (replaced m c)
  unfolding replacement
  replaced-Printable [] c h p = (p, tt)
  replaced-Printable ((to, from) ∷ m) c h p = elim (Bool-cases (c == from)) [
    | inl e ↦ rw e (ascii-Printable to h.0)
    | inr e ↦ rw e (replaced-Printable m c h.1 p)
  ]

  translate-Printable :
      (m : List TranslateMapEntry) (t : Text) → HasAscii m → Printable t → Printable (translate m t)
  unfolding translate
  translate-Printable m [] h p = tt
  translate-Printable m (c ∷ t) h p =
      All-append (λ c. iswprint c ≡ true) (replaced m c) (translate m t)
        (replaced-Printable m c h p.0) (translate-Printable m t h p.1)

  -- Nothing is coded.
  coded-Printable : (f : OutputFormat) (x : Text) → Printable x → coded iswprint f x ≡ x
  unfolding coded
  coded-Printable f [] h = refl
  coded-Printable f (c ∷ x) h = rw (h.0, coded-Printable f x h.1) refl

  Printable-HasShortCodes : (f : OutputFormat) (x : Text) → Printable x → HasShortCodes iswprint f x
  Printable-HasShortCodes f [] h = tt
  Printable-HasShortCodes f (c ∷ x) h = (λ n. absurd (cc), Printable-HasShortCodes f x h.1)

  -- On printable texts the second pass of `encode_string` changes nothing.
  encode-Printable :
      {f : OutputFormat} {m : List TranslateMapEntry}
      → Escapes f m
      → HasAscii m
      → (s : PString) (t : Text) → text_of s ≡ ok t
      → s.len ≡ length t + 1
      → NoNul t
      → Printable t
      → Holds iswprint f (encode_string iswprint f s) (translate m t)
  encode-Printable {f} {m} e a s t is_t l n p =
      let q = translate-Printable m t a p in
      subst (Holds iswprint f (encode_string iswprint f s)) (coded-Printable f (translate m t) q)
        (encode_string_lem iswprint e s t is_t l n (Printable-HasShortCodes f (translate m t) q))

  -- `encode_string` in XML output makes of a pstring one that an XML parser reads as the text that
  -- was there, with no markup in it. Conditions: printable ASCII is printable, every character of
  -- the text is printable and one that an XML document may hold, and the length of the pstring
  -- counts the terminator.
  pub encode_string-XmlReads :
      (s : PString) (t : Text)
      → text_of s ≡ ok t
      → s.len ≡ length t + 1
      → All IsXmlChar t
      → Printable t
      → (x : Text) × Holds iswprint xml (encode_string iswprint xml s) x × XmlReads x t
  encode_string-XmlReads s t is_t l xs p = (
    translate xml_map t,
    encode-Printable Escapes.as_xml xml_map-HasAscii s t is_t l (xml-NoNul t xs) p,
    XmlReads-translate t xs,
  )

  -- `encode_string` in JSON output makes of a pstring one that a JSON parser reads between two quotes
  -- as the text that was there with every backslash doubled, and that does not end the string.
  -- Conditions: printable ASCII is printable, every character of the text is printable and no control
  -- character below U+0020, and the length of the pstring counts the terminator.
  pub encode_string-json_read :
      (s : PString) (t : Text)
      → text_of s ≡ ok t
      → s.len ≡ length t + 1
      → All (λ c. 32 ≤ c) t
      → Printable t
      → (x : Text) × Holds iswprint json (encode_string iswprint json s) x
        × (json_read x ≡ some (doubled t))
  encode_string-json_read s t is_t l xs p = (
    translate json_map t,
    encode-Printable Escapes.as_json json_map-HasAscii s t is_t l (json-NoNul t xs) p,
    json_read-translate t xs,
  )
