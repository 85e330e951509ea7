-- ===== src/Domain/Account.antt =====
-- pkg/domain/account.go: accounts, API keys and the keys' PII masking levels.
-- Fields that no modelled code reads (addresses of the account's owner, subscription and audit
-- times) are left out.
use dappnode_nexus_gateway.Common.{
  String, Bool, ◌||◌, Option, none, some, if◌then◌else◌, ◌==◌, string_eq, ℕ,
}

pub record Account : Type 0 where
  pub id : String
  pub external_customer_id : Option String
  pub status : String
  pub is_guest : Bool

abbrev pub is_active : Account → Bool
is_active a = a.status == "active"

pub record ApiKey : Type 0 where
  pub id : String
  pub account_id : String
  pub name : Option String
  pub key_prefix : String
  pub active : Bool
  pub pii_mode : String
  pub last_used_at : Option ℕ

-- `none` is the result `("", false)`.
unfoldable pub normalize_pii_mode : String → Option String
normalize_pii_mode mode =
    if mode == ""
    then some "off"
    else if mode == "off" || mode == "low" || mode == "balanced" || mode == "high"
    then some mode
    else none

pub record AuthContext : Type 0 where
  pub account : Account
  pub api_key : ApiKey
