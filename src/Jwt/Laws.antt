-- ===== src/Jwt/Laws.antt =====
-- What becomes of the claims of a token.
use eu_saas.Prelude.{
  ◌≡◌, refl, ap, ◌∙◌, String, Option, some, [], ◌∷◌, lookup, lookup-insert, insert, ◌==◌, string_eq,
  if◌then◌else◌,
}
use eu_saas.Domain.Values.{Value, Attributes}
use eu_saas.Jwt.{updated}

-- The value of a claim after an update, if it was `old` before.
abbrev pub latest : String → Option Value → Attributes → Option Value
latest name old [] = old
latest name old ((other, value) ∷ claims) =
    latest name (if other == name then some value else old) claims

-- Extra claims replace claims of the same name, those of the handler too.
pub lookup-updated :
    (name : String) (payload claims : Attributes)
    → lookup name (updated payload claims) ≡ latest name (lookup name payload) claims
lookup-updated name payload [] = refl
lookup-updated name payload ((other, value) ∷ claims) =
    lookup-updated name (insert other value payload) claims
    ∙ ap (λ o. latest name o claims) (lookup-insert other name value payload)
