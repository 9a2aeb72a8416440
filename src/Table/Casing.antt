-- ===== src/Table/Casing.antt =====
-- `toLower` of internal/command/table.go, and `strings.ToUpper` on ASCII bytes.
use redimos.Prelude.{
  ℕ, ◌+◌, ◌-◌, ◌≡◌, refl, ap, ap₂, sym, ◌∙◌, Bool, true, false, ◌&&◌, [], ◌∷◌, map, Bytes,
  if◌then◌else◌, leb, Bool-cases, inl, inr, arith,
}

abbrev pub is_upper : ℕ → Bool
is_upper c = leb b'A' c && leb c b'Z'

unfoldable pub has_upper : Bytes → Bool
has_upper [] = false
has_upper (c ∷ s) = if is_upper c then true else has_upper s

abbrev pub lower_byte : ℕ → ℕ
lower_byte c = if is_upper c then c + (b'a' - b'A') else c

-- A name without upper-case letters is returned as it is.
unfoldable pub to_lower : Bytes → Bytes
unfolding has_upper
to_lower s = if has_upper s then map lower_byte s else s

-- `strings.ToUpper`
unfoldable pub to_upper : Bytes → Bytes
to_upper = map (λ c. if leb b'a' c && leb c b'z' then c - 32 else c)

lower_byte_idem : (c : ℕ) → lower_byte (lower_byte c) ≡ lower_byte c
lower_byte_idem c = ground arith

map-lower_byte : (s : Bytes) → has_upper s ≡ false → map lower_byte s ≡ s
unfolding has_upper
map-lower_byte [] h = refl
map-lower_byte (c ∷ s) h =
    let here : lower_byte c ≡ c = ground arith in ap₂ ◌∷◌ here (map-lower_byte s (ground arith))

-- The shortcut changes nothing: the result is every letter in lower case.
pub to_lower_lem : (s : Bytes) → to_lower s ≡ map lower_byte s
unfolding to_lower
to_lower_lem s = elim (Bool-cases (has_upper s)) [
  | inl upper ↦ rw upper
  | inr lower ↦ rw (lower, map-lower_byte s lower)
]

map-lower_byte_idem : (s : Bytes) → map lower_byte (map lower_byte s) ≡ map lower_byte s
map-lower_byte_idem [] = refl
map-lower_byte_idem (c ∷ s) = ap₂ ◌∷◌ (lower_byte_idem c) (map-lower_byte_idem s)

pub to_lower_idem : (s : Bytes) → to_lower (to_lower s) ≡ to_lower s
to_lower_idem s =
    to_lower_lem (to_lower s)
    ∙ ap (map lower_byte) (to_lower_lem s)
    ∙ map-lower_byte_idem s
    ∙ sym (to_lower_lem s)
