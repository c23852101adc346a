-- ===== src/Team.antt =====
-- The people of a workspace: memberships and invitations (apps/api/src/team).
pub mod Membership
pub mod Invitation
pub mod Owners
pub mod MemberLaws
pub mod InvitationLaws
pub mod InviteLaws
pub mod Requests
