-- ===== src/Database/People.antt =====
-- apps/backend/prisma/schema.prisma: people, their sign-in and their place in an organisation.
use Prim.Native.String.{String}
use rookopg.Prelude.{ℕ, Bool, Option}
use rookopg.Calendar.{Date}
use rookopg.Iam.{OrgRole}

pub data UserStatus : Type 0 where
  active_user unclaimed suspended : UserStatus

pub record User : Type 0 where
  pub id : ℕ
  pub phone : ℕ
  pub full_name : Option String
  pub status : UserStatus

pub record OtpChallenge : Type 0 where
  pub id : ℕ
  pub phone : ℕ
  pub code_hash : ℕ
  pub attempts : ℕ
  pub expires_at : Date
  pub consumed_at : Option Date
  pub created_at : Date

pub record AuthSession : Type 0 where
  pub id : ℕ
  pub user_id : ℕ
  pub refresh_token_hash : ℕ
  pub family_id : ℕ
  pub expires_at : Date
  pub revoked_at : Option Date

pub record OrgMembership : Type 0 where
  pub id : ℕ
  pub org_id : ℕ
  pub user_id : ℕ
  pub role : OrgRole
  pub active : Bool
  pub can_create_properties : Bool

pub record OrgMembershipProperty : Type 0 where
  pub membership_id : ℕ
  pub property_id : ℕ
