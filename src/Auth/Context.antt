-- ===== src/Auth/Context.antt =====
-- apps/api/src/auth/auth-context.ts
use Prim.Native.String.{String}
use stock_pilot.Prelude.{ℕ, Bool, Option}
pub use stock_pilot.Store.Rows.{Role, manager, owner, staff}
use stock_pilot.Store.Monad.{M, membership_required, or_throw}

pub record MembershipContext : Type 0 where
  pub id : ℕ
  pub role : Role
  pub organization : ℕ
  pub is_demo : Bool

pub record AuthContext : Type 0 where
  pub session_id : ℕ
  pub session_token_hash : String
  pub user : ℕ
  pub display_name : String
  pub email : String
  pub membership : Option MembershipContext

unfoldable pub require_membership : AuthContext → M MembershipContext
require_membership auth = or_throw auth.membership membership_required
