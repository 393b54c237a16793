-- ===== src/Tests/Access.antt =====
-- An erasure run at concrete values.
use eu_saas.Prelude.{ℕ, ◌+◌, ◌≡◌}
use eu_saas.Access.{permission_eq}
use eu_saas.Erasure.{ErasureBackend, returned, raised, execute}
use eu_saas.Erasure.Pipeline.{all_succeeded, execute-IsHonest}

-- A backend that counts the calls, and cannot drop the schema.
abbrev backend : ErasureBackend ℕ
backend = record {
  freeze_tenant = λ id s. (returned tt, s + 1);
  export_final_archive = λ id s. (returned "/archive", s + 1);
  cascade_delete_data = λ id s. (returned tt, s + 1);
  drop_schema = λ id s. (raised "in use", s + 1);
  rotate_encryption_key = λ id s. (returned tt, s + 1);
  purge_caches = λ id s. (returned tt, s + 1);
  write_audit_record = λ id result s. (returned tt, s + 1);
  now = λ s. (s, s + 1);
}

execute-IsHonest_example :
    (execute backend "acme" 0).0.success ≡ all_succeeded (execute backend "acme" 0).0.steps
execute-IsHonest_example = execute-IsHonest backend "acme" 0
