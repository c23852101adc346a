-- ===== src/Team/Requests.antt =====
-- Requests about a team, one after the other, each in its own transaction
-- (apps/api/src/team/team.controller.ts).
use Prim.Native.String.{String}
use stock_pilot.Prelude.{ℕ, List, [], ◌∷◌, ⊤}
use stock_pilot.Store.Rows.{Role, Invitation}
use stock_pilot.Store.Monad.{
  Store, M, pure, ◌>>◌, with_tenant, with_tenant-keeps, Ensures, Ensures-map, Ensures-bind,
}
use stock_pilot.Auth.Context.{AuthContext}
use stock_pilot.Team.Membership.{change_member_role, remove_member}
use stock_pilot.Team.Invitation.{
  InviteReadings, InviteInput, invite, revoke_invitation, accept_in_transaction,
}
use stock_pilot.Team.Owners.{IsTeam, IsTeam-same, IsTeam-join}
use stock_pilot.Team.MemberLaws.{Keeps, change_member_role-IsTeam, remove_member-IsTeam}
use stock_pilot.Team.InvitationLaws.{Joined, accept_in_transaction-Joined}
use stock_pilot.Team.InviteLaws.{invite-IsInvited, revoke_invitation-IsTeam}

-- `accept` carries the display name of the caller and the invitation that the link was resolved
-- to, at whatever time before.
pub data TeamCommand : Type 0 where
  change_role : ℕ → Role → TeamCommand
  remove : ℕ → TeamCommand
  issue : String → InviteInput → TeamCommand
  revoke : ℕ → TeamCommand
  accept : String → Invitation → TeamCommand

pub record TeamRequest : Type 0 where
  pub auth : AuthContext
  pub readings : InviteReadings
  pub command : TeamCommand

unfoldable pub ignore : {A : Type 0} → M A → M ⊤
ignore m = do m; pure tt

ignore-IsTeam :
    {A : Type 0} (o : ℕ) (m : M A) (s : Store)
    → Ensures (Keeps o) (m s)
    → Ensures (Keeps o) (ignore m s)
unfolding ignore
ignore-IsTeam o m s h = Ensures-bind (Keeps o) (Keeps o) _ _ h (λ _ t c. c)

module _ (to_lower_case : String → String) (hash_session_token : String → String) where
  unfoldable pub perform_team : InviteReadings → AuthContext → TeamCommand → M ⊤
  perform_team r auth (change_role id role) = ignore (change_member_role auth id role)
  perform_team r auth (remove id) = ignore (remove_member r.at_revoke auth id)
  perform_team r auth (issue raw input) =
      ignore (invite to_lower_case hash_session_token r auth raw input)
  perform_team r auth (revoke id) = ignore (revoke_invitation r.at_revoke auth id)
  perform_team r auth (accept name i) =
      ignore (accept_in_transaction r.at_pending r.at_create auth name i)

  unfoldable pub serve_team : List TeamRequest → Store → Store
  serve_team [] s = s
  serve_team (r ∷ rs) s = serve_team rs (with_tenant (perform_team r.readings r.auth r.command) s).1

  perform_team-IsTeam :
      (o : ℕ) (r : InviteReadings) (auth : AuthContext) (c : TeamCommand) (s : Store)
      → IsTeam o s
      → Ensures (Keeps o) (perform_team r auth c s)
  unfolding perform_team
  perform_team-IsTeam o r auth (change_role id role) s h =
      ignore-IsTeam o _ s (change_member_role-IsTeam o auth id role s h)
  perform_team-IsTeam o r auth (remove id) s h =
      ignore-IsTeam o _ s (remove_member-IsTeam o r.at_revoke auth id s h)
  perform_team-IsTeam o r auth (issue raw input) s h = ignore-IsTeam o _ s (
      Ensures-map _ (Keeps o) _
        (λ res t (m, e, w). IsTeam-same o s t w.members_same w.next_higher h)
        (invite-IsInvited to_lower_case hash_session_token r auth raw input s))
  perform_team-IsTeam o r auth (revoke id) s h =
      ignore-IsTeam o _ s (revoke_invitation-IsTeam o r.at_revoke auth id s h)
  perform_team-IsTeam o r auth (accept name i) s h = ignore-IsTeam o _ s (
      Ensures-map (Joined r.at_pending r.at_create auth i s) (Keeps o) _
        (λ x t w.
          IsTeam-join o s t x (rw (w.granted.1.0, w.granted.1.1) w.no_member) w.fresh.0 w.joined
            w.fresh.1 h)
        (accept_in_transaction-Joined r.at_pending r.at_create auth name i s))

  -- Whatever requests come, a workspace that has an owner keeps one; a user never gets a second
  -- membership in a workspace, and identifiers stay unique and fresh.
  pub serve_team-IsTeam :
      (org : ℕ) (rs : List TeamRequest) (s : Store) → IsTeam org s → IsTeam org (serve_team rs s)
  unfolding serve_team
  serve_team-IsTeam org [] s h = h
  serve_team-IsTeam org (r ∷ rs) s h = serve_team-IsTeam org rs _ (
      with_tenant-keeps (IsTeam org) _ s h
        (perform_team-IsTeam org r.readings r.auth r.command s h))
