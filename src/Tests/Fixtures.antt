-- ===== src/Tests/Fixtures.antt =====
-- A world with simple answers, and containers with a tenant and a user.
use eu_saas.Domain.Decimal.{larger}
use eu_saas.Domain.Billing.{Reading, Calendar, Floats}
use eu_saas.Prelude.{
  ◌-◌, length, ◌^◌, ◌%◌, leb, ◌*◌, List, ◌/◌, ℕ, zero, suc, ◌+◌, ◌≡◌, refl, ap, String, Option,
  none, some, [], ◌∷◌, true, if◌then◌else◌, ◌==◌, string_eq, ==_refl, lookup, arith, nat_eq,
}
use eu_saas.Domain.Values.{Value, text}
use eu_saas.Domain.Tenant.{Tenant, active}
use eu_saas.Domain.User.{User, TenantRole}
use eu_saas.Container.{
  Container, fresh, World, Verified, no_op_schema_manager, in_memory_record_store,
}
use eu_saas.Services.Registry.{AreDistinct}
use eu_saas.Services.Auth.SignIn.{IsSound}

-- A UUID as that many letters.
abbrev pub tally : ℕ → String
tally zero = ""
tally (suc n) = String.◌∷◌ "x" (tally n)

abbrev count : String → ℕ
count String.[] = 0
count (String.◌∷◌ c s) = suc (count s)

pub count-tally : (n : ℕ) → count (tally n) ≡ n
count-tally zero = refl
count-tally (suc n) = ap suc (count-tally n)

-- The subject of a list of claims.
abbrev subject_of : Option Value → String
subject_of (some (text sub)) = sub
subject_of _ = ""

abbrev total : List ℕ → ℕ
total [] = 0
total (x ∷ xs) = x + total xs

abbrev most : List ℕ → ℕ
most [] = 0
most (x ∷ xs) = larger x (most xs)

abbrev least : List ℕ → ℕ
least [] = 0xFFFF
least (x ∷ xs) = let rest = least xs in if leb x rest then x else rest

abbrev pub verify_plain : String → String → Verified
verify_plain hashed password = if hashed == password then Verified.matches else Verified.mismatch

-- Floats as whole hundredths: the mean, and the width of the values in place of their deviation.
abbrev floats : Floats
floats = record {
  float = λ a. a.digits * 100 / 10 ^ a.places;
  infinity = 0xFFFF;
  mean = λ xs. total xs / length xs;
  stdev = λ xs. most xs - least xs;
  equals = λ x y. x == y;
  at_least = λ x y. leb y x;
  distance = λ x y. (x - y) + (y - x);
  quotient = λ x y. x * 100 / y;
  rounded = λ x. Reading.finite (record { digits = x; places = 2 });
}

-- Months of 30 days and years of 12 months, from the first day on.
abbrev calendar : Calendar
calendar = record {
  year = λ d. d / 360;
  month = λ d. d / 30 % 12 + 1;
  day = λ d. d % 30 + 1;
  days_in_month = λ d. 30;
}

abbrev pub world : World
world = record {
  digest = record { sha256 = λ t. t; str_uuid = tally; isoformat = tally };
  uuid4 = λ n. n + 1;
  hex = tally;
  now = λ n. n;
  today = λ n. 20000;
  token_urlsafe = λ n. tally (n + 1);
  hash = λ n password. password;
  verify = verify_plain;
  jwt_encode = λ claims key. subject_of (lookup "sub" claims);
  jwt_decode = λ n token key issuer. some (("sub", text token) ∷ []);
  parse_uuid = λ t. some (count t);
  private_key = "private";
  public_key = "public";
  issuer = "eu-mt-platform";
  schemas = no_op_schema_manager;
  records = in_memory_record_store;
  floats = floats;
  calendar = calendar;
  iso_date = tally;
  str_decimal = λ a. tally a.digits;
  divide = λ a n. record { digits = a.digits / n; places = a.places };
}

pub world-AreDistinct : AreDistinct world
world-AreDistinct m n e = omega (arith, e)

pub world-IsSound : IsSound world
unfolding lookup
world-IsSound = record {
  verifies = λ n password. rw (==_refl password) refl;
  decodes = λ n c sub exp named issued expires early. (_, refl, rw named refl);
  parses = λ id. ap some (count-tally id);
}

abbrev pub acme : Tenant
acme = record {
  id = 7;
  name = "Acme";
  slug = "acme";
  owner_email = "owner@acme.eu";
  status = active;
  schema_name = "tenant_acme";
  created_at = 0;
  updated_at = 0;
  settings = [];
  metadata = [];
}

abbrev pub ada : User
ada = record {
  id = 8;
  tenant_id = 7;
  email = "ada@acme.eu";
  hashed_password = "secret";
  full_name = "Ada";
  role = TenantRole.owner;
  is_active = true;
  created_at = 0;
  last_login = none;
}

-- One tenant, its user, and a refresh token of that user.
abbrev pub office : Container
office = record fresh {
  tenants = record { store = (7, acme) ∷ []; by_slug = ("acme", 7) ∷ [] };
  users = record { store = (8, ada) ∷ []; by_email = ("ada@acme.eu", 8) ∷ [] };
  tokens = ("old", (8, 1000)) ∷ [];
  calls = 9;
}
