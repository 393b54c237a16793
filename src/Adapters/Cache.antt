-- ===== src/Adapters/Cache.antt =====
-- `InMemoryCacheManager`. The cache is a dict of texts; `purge_tenant` deletes the keys that start
-- with the tenant's id, which the caller passes as `str(tenant_id)`.
use eu_saas.Prelude.{String, not, Dict, filter, string_eq}
use text.Mathlib.Text.{starts_with}
use eu_saas.Domain.Values.{Value}

abbrev pub CacheStore : Type 0
CacheStore = Dict String Value

unfoldable pub purge_tenant : String → CacheStore → CacheStore
purge_tenant prefix cache = filter (λ e. not (starts_with e.0 prefix)) cache
