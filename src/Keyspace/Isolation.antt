-- ===== src/Keyspace/Isolation.antt =====
-- Partition keys of different databases or keys are different, and decoding undoes encoding.
use redimos.Prelude.{
  ℕ, ◌≡◌, refl, sym, ap₂, ◌∙◌, ◌↔◌, ◌⊎◌, inl, inr, Bool, true, false, some, [], ◌∷◌, ◌++◌,
  append_assoc, Bytes, arith,
}
use redimos.Args.Integer.Numerals.{digits, decimal}
use redimos.Args.Integer.Value.{AllDigits, digits-AllDigits, digits-injective}
use redimos.Keyspace.{strip_prefix, db_prefix, encode_pk, decode_pk}

strip_prefix-append : (p s : Bytes) → strip_prefix p (p ++ s) ≡ some s
unfolding strip_prefix
strip_prefix-append [] s = refl
strip_prefix-append (c ∷ p) s = ground (arith, strip_prefix-append p s)

strip_prefix_sound : (p s t : Bytes) → strip_prefix p s ≡ some t → s ≡ p ++ t
unfolding strip_prefix
strip_prefix_sound [] s t h = ground arith
strip_prefix_sound (c ∷ p) [] t h = ground arith
strip_prefix_sound (c ∷ p) (d ∷ s) t h = ground (arith, strip_prefix_sound p s t)

strip_prefix_complete : (p s t : Bytes) → s ≡ p ++ t → strip_prefix p s ≡ some t
strip_prefix_complete p s t e = rw e (strip_prefix-append p t)

-- A run of digits ends at the first colon.
digits_end_unique :
    (p q s t : Bytes)
    → AllDigits p
    → AllDigits q
    → p ++ b':' ∷ s ≡ q ++ b':' ∷ t
    → (p ≡ q) × (s ≡ t)
digits_end_unique [] [] s t hp hq e = (refl, ground arith)
digits_end_unique [] (d ∷ q) s t hp (lo, hi, hq) e = absurd (ground arith)
digits_end_unique (c ∷ p) [] s t (lo, hi, hp) hq e = absurd (ground arith)
digits_end_unique (c ∷ p) (d ∷ q) s t (lo, hi, hp) (lo', hi', hq) e =
    let (ih, rest) = digits_end_unique p q s t hp hq (ground arith) in
    let same : c ≡ d = ground arith in (ground arith, rest)

-- With several databases, two partition keys are equal only for the same database and key.
pub encode_pk-injective :
    (d d' : ℕ) (k k' : Bytes) → encode_pk true d k ≡ encode_pk true d' k' → (d ≡ d') × (k ≡ k')
unfolding encode_pk decimal
encode_pk-injective d d' k k' e =
    let flat : digits d ++ b':' ∷ k ≡ digits d' ++ b':' ∷ k' =
      sym (append_assoc (digits d) (b':' ∷ []) k) ∙ e ∙ append_assoc (digits d') (b':' ∷ []) k' in
    let (db, key) =
      digits_end_unique (digits d) (digits d') k k' (digits-AllDigits d) (digits-AllDigits d')
        flat in
    (digits-injective d d' db, key)

decoded :
    (multi : Bool) (d : ℕ) (pk key : Bytes)
    → (decode_pk multi d pk ≡ some key) ↔ (pk ≡ encode_pk multi d key)
unfolding encode_pk decode_pk
decoded false d pk key = (λ h. ground arith, λ h. ground arith)
decoded true d pk key =
    (strip_prefix_sound (db_prefix d) pk key, strip_prefix_complete (db_prefix d) pk key)

-- The same database, or a server that keeps only one.
abbrev pub SameDatabase : Bool → ℕ → ℕ → Type 0
SameDatabase multi d d' = (multi ≡ false) ⊎ (d ≡ d')

isolated :
    (multi : Bool) (d d' : ℕ) (key key' : Bytes)
    → (encode_pk multi d key ≡ encode_pk multi d' key') ↔ (SameDatabase multi d d' × (key ≡ key'))
unfolding encode_pk
isolated false d d' key key' = (λ e. (inl refl, e), λ h. h.1)
isolated true d d' key key' = (
  λ e. (let (db, same) = encode_pk-injective d d' key key' e in (inr db, same)),
  λ h. elim h.0 [
    | inl other ↦ absurd (ground (arith, other))
    | inr db ↦ ap₂ (encode_pk true) db h.1
  ],
)

-- A partition key decodes to a logical key in a database exactly when it is the encoding of that
-- key there. The partition key of a key in one database decodes in another to a key exactly if it
-- is the same database, or the server keeps only one, and the same key: with several databases SCAN
-- shows each key in its own and nowhere else.
pub decode_pk_iff :
    (multi : Bool) (d d' : ℕ) (pk key key' : Bytes)
    → ((decode_pk multi d pk ≡ some key) ↔ (pk ≡ encode_pk multi d key))
      × ((decode_pk multi d' (encode_pk multi d key) ≡ some key')
          ↔ (SameDatabase multi d d' × (key ≡ key')))
decode_pk_iff multi d d' pk key key' =
    let across = decoded multi d' (encode_pk multi d key) key' in
    let apart = isolated multi d d' key key' in
    (decoded multi d pk key, (λ h. apart.0 (across.0 h), λ h. across.1 (apart.1 h)))
