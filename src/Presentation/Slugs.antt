-- ===== src/Presentation/Slugs.antt =====
-- The slugs that a client may give, and the schemas that are named after them.
use text.Mathlib.TextEquality.{Char-path}
use mathlib.Core.Option
use Prim.Native.String.{◌∷◌, ◌++◌}
use Prim.Native.String.append
use text.Mathlib.TextLemmas.{append-nil}
use eu_saas.Prelude.{
  List, suc, ◌≤◌, All, length, ◌<◌, [], ◌∷◌, List, ℕ, ◌≡◌, refl, sym, ap, ◌∙◌, String, Char, code,
  Bool, true, false, Bool-cases, inl, inr, ◌||◌, nat_beq, if◌then◌else◌, arith, some,
}
use eu_saas.Text.{remove_prefix, codes, replace_dashes, dash_to_underscore}
use eu_saas.SchemaManager as SchemaManager
use eu_saas.SchemaManager.{matches_rest, schema_name, sanitise_slug}
use eu_saas.Migrations.{tenant_schema_name}
use eu_saas.Migrations.Naming.{remove_prefix-tenant_schema_name}
use eu_saas.Presentation.Schemas.{is_lower_or_digit, matches_slug, TenantCreate, is_tenant_create}

abbrev append_codes : List ℕ → List ℕ → List ℕ
append_codes [] ds = ds
append_codes (c ∷ cs) ds = c ∷ append_codes cs ds

abbrev is_slug_code : ℕ → Bool
is_slug_code c = is_lower_or_digit c || nat_beq c b'-'

-- A slug from its second character on, whatever its first.
record IsRest (s : String) : Type 0 where
  started : Bool
  matched : matches_slug started (codes s) ≡ true

slug_parts :
    (started : Bool) (c : Char) (s : String)
    → matches_slug started (codes (String.◌∷◌ c s)) ≡ true
    → (is_slug_code (code c) ≡ true) × IsRest s
slug_parts started c s h = elim (Bool-cases (is_lower_or_digit (code c))) [
  | inl letter ↦
      (ground (arith, letter), record { started = true; matched = ground (arith, letter, h) })
  | inr other ↦
      (ground (arith, other, h), record { started = false; matched = ground (arith, other, h) })
]

code-dash_to_underscore :
    (c : Char) → code (dash_to_underscore c) ≡ (if nat_beq (code c) b'-' then b'_' else code c)
code-dash_to_underscore c = elim (Bool-cases (nat_beq (code c) b'-')) [
  | inl dash ↦ rw dash refl
  | inr other ↦ rw other refl
]

same_number :
    (m n : ℕ)
    → is_slug_code m ≡ true
    → is_slug_code n ≡ true
    → (if nat_beq m b'-' then b'_' else m) ≡ (if nat_beq n b'-' then b'_' else n)
    → m ≡ n
same_number m n h k e = ground arith

same_code :
    (c d : Char)
    → is_slug_code (code c) ≡ true
    → is_slug_code (code d) ≡ true
    → code (dash_to_underscore c) ≡ code (dash_to_underscore d)
    → code c ≡ code d
same_code c d h k e =
    same_number (code c) (code d) h k
      (sym (code-dash_to_underscore c) ∙ e ∙ code-dash_to_underscore d)

head_equal : (c d : Char) (s t : String) → String.◌∷◌ c s ≡ String.◌∷◌ d t → code c ≡ code d
head_equal c d s t e = cc

tail_equal : (c d : Char) (s t : String) → String.◌∷◌ c s ≡ String.◌∷◌ d t → s ≡ t
tail_equal c d s t e = cc

replace_dashes-injective :
    (a b : String) → IsRest a → IsRest b → replace_dashes a ≡ replace_dashes b → a ≡ b
unfolding replace_dashes
replace_dashes-injective String.[] String.[] h k e = refl
replace_dashes-injective String.[] (String.◌∷◌ d t) h k e = cc
replace_dashes-injective (String.◌∷◌ c s) String.[] h k e = cc
replace_dashes-injective (String.◌∷◌ c s) (String.◌∷◌ d t) h k e =
    let (valid_c, rest_c) = slug_parts h.started c s h.matched in
    let (valid_d, rest_d) = slug_parts k.started d t k.matched in
    let heads = Char-path c d (same_code c d valid_c valid_d (head_equal _ _ _ _ e)) in
    let tails = replace_dashes-injective s t rest_c rest_d (tail_equal _ _ _ _ e) in
    ap (λ x. String.◌∷◌ x s) heads ∙ ap (λ x. String.◌∷◌ d x) tails

rest-matches : (s : String) → IsRest s → matches_rest s ≡ true
unfolding matches_rest
rest-matches String.[] h = refl
rest-matches (String.◌∷◌ c String.[]) h =
    let (valid, rest) = slug_parts h.started c String.[] h.matched in ground (arith, valid)
rest-matches (String.◌∷◌ c (String.◌∷◌ d t)) h =
    let (valid, rest) = slug_parts h.started c (String.◌∷◌ d t) h.matched in
    ground (arith, valid, rest-matches (String.◌∷◌ d t) rest)

slug-matches :
    (s : String) → matches_slug false (codes s) ≡ true → SchemaManager.matches_slug s ≡ true
unfolding SchemaManager.matches_slug
slug-matches String.[] h = h
slug-matches (String.◌∷◌ c s) h =
    let (valid, rest) = slug_parts false c s h in ground (arith, h, valid, rest-matches s rest)

slug-IsRest :
    (body : TenantCreate)
    → is_tenant_create body ≡ true
    → matches_slug false (codes body.slug) ≡ true
unfolding is_tenant_create
slug-IsRest body h = ground (arith, h)

-- The schema manager accepts the slug of every body that is valid, and names its schema as the
-- migration runner does.
pub is_tenant_create-schema_name :
    (body : TenantCreate)
    → is_tenant_create body ≡ true
    → schema_name body.slug ≡ some (tenant_schema_name body.slug)
unfolding schema_name sanitise_slug tenant_schema_name
is_tenant_create-schema_name body h = rw (slug-matches body.slug (slug-IsRest body h)) refl

-- A name that PostgreSQL does not truncate: ASCII, and at most 63 bytes long.
abbrev pub IsShort : String → Type 0
IsShort name = All (λ c. c < 128) (codes name) × (length (codes name) ≤ 63)

slug_code-ascii : (c : ℕ) → is_slug_code c ≡ true → c < 128
slug_code-ascii c h = ground arith

dashed_code-ascii : (c : Char) → code c < 128 → code (dash_to_underscore c) < 128
dashed_code-ascii c h = elim (Bool-cases (nat_beq (code c) b'-')) [
  | inl dash ↦ rw dash (omega arith)
  | inr other ↦ rw other h
]

rest-ascii : (s : String) → IsRest s → All (λ c. c < 128) (codes (replace_dashes s))
unfolding replace_dashes
rest-ascii String.[] h = tt
rest-ascii (String.◌∷◌ c s) h =
    let (valid, rest) = slug_parts h.started c s h.matched in
    (dashed_code-ascii c (slug_code-ascii (code c) valid), rest-ascii s rest)

length-replace_dashes : (s : String) → length (codes (replace_dashes s)) ≡ length (codes s)
unfolding replace_dashes
length-replace_dashes String.[] = refl
length-replace_dashes (String.◌∷◌ c s) = ap suc (length-replace_dashes s)

codes-append : (s t : String) → codes (s ++ t) ≡ append_codes (codes s) (codes t)
codes-append String.[] t = rw (append.nil t) refl
codes-append (String.◌∷◌ c s) t = rw (append.cons c s t) (ap (λ cs. code c ∷ cs) (codes-append s t))

codes-tenant_schema_name :
    (s : String)
    → codes (tenant_schema_name s) ≡ append_codes (codes "tenant_") (codes (replace_dashes s))
unfolding tenant_schema_name
codes-tenant_schema_name s =
    rw (append-nil (replace_dashes s)) (codes-append "tenant_" (replace_dashes s))

-- The name of the schema of a slug of at most 56 characters is not truncated.
tenant_schema_name-IsShort :
    (s : String) → IsRest s → length (codes s) ≤ 56 → IsShort (tenant_schema_name s)
tenant_schema_name-IsShort s h short = rw (codes-tenant_schema_name s) (
  (
    omega arith,
    (
      omega arith,
      (omega arith, (omega arith, (omega arith, (omega arith, (omega arith, rest-ascii s h))))),
    ),
  ),
  omega (arith, short, length-replace_dashes s),
)

-- If PostgreSQL keeps names of at most 63 bytes of ASCII whole, two valid bodies with slugs of at
-- most 56 characters, whose schemas are the same in the database, have the same slug.
pub schema_name-determines :
    (stored : String → String) (a b : TenantCreate)
    → ((name : String) → IsShort name → stored name ≡ name)
    → is_tenant_create a ≡ true
    → is_tenant_create b ≡ true
    → length (codes a.slug) ≤ 56
    → length (codes b.slug) ≤ 56
    → Option.map stored (schema_name a.slug) ≡ Option.map stored (schema_name b.slug)
    → a.slug ≡ b.slug
schema_name-determines stored a b keeps h k short_a short_b e =
    let rest_a : IsRest a.slug = record { started = false; matched = slug-IsRest a h } in
    let rest_b : IsRest b.slug = record { started = false; matched = slug-IsRest b k } in
    let names : some (stored (tenant_schema_name a.slug))
        ≡ some (stored (tenant_schema_name b.slug)) =
      sym (ap (Option.map stored) (is_tenant_create-schema_name a h))
      ∙ e
      ∙ ap (Option.map stored) (is_tenant_create-schema_name b k) in
    let equal : stored (tenant_schema_name a.slug) ≡ stored (tenant_schema_name b.slug) = cc in
    let same =
      sym (keeps (tenant_schema_name a.slug) (tenant_schema_name-IsShort a.slug rest_a short_a))
      ∙ equal
      ∙ keeps (tenant_schema_name b.slug) (tenant_schema_name-IsShort b.slug rest_b short_b) in
    replace_dashes-injective a.slug b.slug rest_a rest_b (
      sym (remove_prefix-tenant_schema_name a.slug)
      ∙ ap (remove_prefix "tenant_") same
      ∙ remove_prefix-tenant_schema_name b.slug)
