-- ===== src/Migrations/Naming.antt =====
-- Slugs, and the schema names that are made from them and taken apart again.
use Prim.Native.String.{◌++◌}
use Prim.Native.String.append
use text.Mathlib.TextLemmas.{append-nil}
use eu_saas.Prelude.{String, code, ◌≡◌, refl, nat_beq_iff}
use eu_saas.Text.{remove_prefix, behind, replace_dashes}
use eu_saas.Migrations.{tenant_schema_name}

behind-append : (whole prefix text : String) → behind whole prefix (prefix ++ text) ≡ text
behind-append whole String.[] text = append.nil text
behind-append whole (String.◌∷◌ c prefix) text =
    rw (append.cons c prefix text, (nat_beq_iff (code c) (code c)).1 refl)
      (behind-append whole prefix text)

-- The prefix is what a schema name has before the slug.
pub remove_prefix-tenant_schema_name :
    (slug : String) → remove_prefix "tenant_" (tenant_schema_name slug) ≡ replace_dashes slug
unfolding remove_prefix tenant_schema_name
remove_prefix-tenant_schema_name slug =
    rw (append-nil (replace_dashes slug))
      (behind-append ("tenant_" ++ replace_dashes slug) "tenant_" (replace_dashes slug))
