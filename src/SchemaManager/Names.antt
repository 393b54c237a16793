-- ===== src/SchemaManager/Names.antt =====
-- What a slug that is let through can put into a statement.
use eu_saas.Prelude.{
  subst, false≢true, Char, ℕ, ◌≡◌, ◌≢◌, refl, String, code, Bool, true, none, some, ◌||◌, nat_beq,
  All, arith, Bool-cases, inl, inr,
}
use eu_saas.Text.{codes, replace_dashes, dash_to_underscore}
use eu_saas.SchemaManager.{is_alphanumeric, is_slug_code, matches_rest, matches_slug, sanitise_slug}

-- A letter, a digit or an underscore: a character of a plain SQL identifier.
abbrev pub is_identifier_code : ℕ → Bool
is_identifier_code c = is_alphanumeric c || nat_beq c b'_'

abbrev pub IsIdentifier : String → Type 0
IsIdentifier t = All (λ c. is_identifier_code c ≡ true) (codes t)

-- There is no line feed in a text.
abbrev pub IsOneLine : String → Type 0
IsOneLine t = All (λ c. c ≢ 10) (codes t)

replaced_code :
    (c : Char)
    → is_slug_code (code c) ≡ true
    → is_identifier_code (code (dash_to_underscore c)) ≡ true
replaced_code c h = elim (Bool-cases (nat_beq (code c) b'-')) [
  | inl dash ↦ rw dash refl
  | inr other ↦ rw other (ground (arith, h, other))
]

rest-IsIdentifier :
    (t : String) → IsOneLine t → matches_rest t ≡ true → IsIdentifier (replace_dashes t)
unfolding matches_rest replace_dashes
rest-IsIdentifier String.[] l h = tt
rest-IsIdentifier (String.◌∷◌ c String.[]) (l, k) h = (replaced_code c (ground (arith, h, l)), tt)
rest-IsIdentifier (String.◌∷◌ c (String.◌∷◌ d t)) (l, k) h =
    (replaced_code c (ground (arith, h)), rest-IsIdentifier (String.◌∷◌ d t) k (ground (arith, h)))

sanitised :
    (slug component : String)
    → sanitise_slug slug ≡ some component
    → (matches_slug slug ≡ true) × (replace_dashes slug ≡ component)
unfolding sanitise_slug
sanitised slug component h = elim (Bool-cases (matches_slug slug)) [
  | inl valid ↦
      let out : sanitise_slug slug ≡ some (replace_dashes slug) = rw valid refl in
      (valid, ground (arith, out, h))
  | inr refused ↦ let out : sanitise_slug slug ≡ none = rw refused refl in ground (arith, out, h)
]

-- A slug of one line that is let through becomes a text of letters, digits and underscores.
pub sanitise_slug-IsIdentifier :
    (slug component : String)
    → IsOneLine slug
    → sanitise_slug slug ≡ some component
    → IsIdentifier component
unfolding matches_slug replace_dashes
sanitise_slug-IsIdentifier String.[] component l h =
    absurd (false≢true (sanitised String.[] component h).0)
sanitise_slug-IsIdentifier (String.◌∷◌ c t) component (l, k) h =
    let (valid, same) = sanitised (String.◌∷◌ c t) component h in
    subst IsIdentifier same
      (replaced_code c (ground (arith, valid)), rest-IsIdentifier t k (ground (arith, valid)))
