-- ===== src/Tests/Tenants.antt =====
-- The tenant and erasure services at one tenant.
use eu_saas.Prelude.{◌≡◌, refl, none, [], ◌∷◌, lookup, nat_eq, string_eq}
use eu_saas.Domain.Tenant.{Tenant}
use eu_saas.Adapters.Tenants as TenantRepo
use eu_saas.Container.{in_memory_record_store, World, Reply, raised, running}
use eu_saas.Pagination.{PaginatedResponse, pagination_params, offset, pages}
use eu_saas.Services.Tenants.{create_tenant, list_tenants}
use eu_saas.Services.Tenants.Provisioning.{IsCreated, create_tenant-IsCreated}
use eu_saas.Services.Tenants.Listing.{collected, collected-all}
use eu_saas.Services.Gdpr.{execute_erasure}
use eu_saas.Services.Gdpr.Erasure.{
  IsAborted, execute_erasure-IsAborted, IsErased, execute_erasure-IsErased,
}
use eu_saas.Tests.Fixtures.{world, office, acme}

create_tenant-IsCreated_example :
    IsCreated world "bolt" office (create_tenant world "Bolt" "bolt" "owner@bolt.eu" none office)
unfolding TenantRepo.get_by_slug lookup
create_tenant-IsCreated_example =
    create_tenant-IsCreated world "Bolt" "bolt" "owner@bolt.eu" none office refl (λ n. refl)
      (λ n. refl)

-- A world whose database refuses every new schema.
abbrev refusing : World
refusing = record world {
  schemas = record {
    create_schema = λ n schema_name. raised "no space";
    run_migrations = λ n schema_name. Reply.returned tt;
    drop_schema = λ n schema_name. Reply.returned tt;
  };
}

abbrev first_page : PaginatedResponse Tenant
first_page = record { items = acme ∷ []; total = 1; page = 1; size = 20 }

collected-all_example : collected (pages first_page) 1 20 none office ≡ acme ∷ []
unfolding list_tenants running pagination_params offset TenantRepo.list_tenants
collected-all_example = collected-all 20 none office first_page refl

execute_erasure-IsErased_example : IsErased world 7 0 office (execute_erasure world 7 office)
unfolding lookup
execute_erasure-IsErased_example =
    execute_erasure-IsErased world 7 office acme refl refl 0 (λ k. refl) (λ k. refl)

-- A world whose records cannot be deleted.
abbrev clinging : World
clinging = record world {
  records = record in_memory_record_store { cascade_delete_all = λ n tenant_id. raised "locked" };
}

execute_erasure-IsAborted_example : IsAborted 7 "locked" office (execute_erasure clinging 7 office)
unfolding lookup
execute_erasure-IsAborted_example =
    execute_erasure-IsAborted clinging 7 office acme "locked" refl refl refl (λ k. refl)
