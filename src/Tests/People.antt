-- ===== src/Tests/People.antt =====
-- The team, the plan and the idempotent requests of the shop.
use Prim.Native.String.{String}
use stock_pilot.Prelude.{
  ◌≡◌, ◌↔◌, ◌⊎◌, refl, true, false, Bool, some, none, [], ◌∷◌, List, arith, count, find_first,
  delete_where,
}
use stock_pilot.Store.Rows.{staff, pro, active, trialing, Subscription, Invitation}
use stock_pilot.Store.Monad.{Store, ok, err, pure, Ensures, invitation_already_accepted}
use stock_pilot.Auth.Context.{AuthContext, MembershipContext}
use stock_pilot.Billing.{
  effective_plan_in_transaction, is_demo_organization, find_subscription, paid_plan_iff,
}
use stock_pilot.Team.Membership.{has_id, is_owner, in_organization, role_eq}
use stock_pilot.Team.Invitation.{
  is_user, InviteReadings, InviteInput, invite, accept_in_transaction,
}
use stock_pilot.Team.Owners.{IsTeam}
use stock_pilot.Team.InvitationLaws.{Joined, accept_in_transaction-Joined, accept_once}
use stock_pilot.Team.InviteLaws.{IsInvited, invite-IsInvited}
use stock_pilot.Team.Requests.{
  TeamRequest, change_role, remove, issue, accept, serve_team, serve_team-IsTeam,
}
use stock_pilot.Idempotency.{
  Json, string, IdempotentRequest, execute_idempotent, fingerprint_payload, purge_expired, answer,
  run_and_record, create_record, canonicalize,
}
use stock_pilot.Idempotency.Replay.{KeyedCall, call_all, executed_once}
use stock_pilot.Tests.Shop.{shop, clerk}

abbrev same : String → String
same t = t

abbrev early : InviteReadings
early = record { at_count = 5; at_pending = 6; at_revoke = 7; at_create = 8 }

abbrev guest : AuthContext
guest = record {
  session_id = 52;
  session_token_hash = "h52";
  user = 6;
  display_name = "Cy";
  email = "cy@shop.test";
  membership = none;
}

abbrev pending : Invitation
pending = record {
  id = 40;
  organization = 1;
  email = "cy@shop.test";
  role = staff;
  token_hash = "h40";
  invited_by = 3;
  expires_at = 90;
  accepted_at = none;
  revoked_at = none;
}

abbrev dora : InviteInput
dora = record { email = "dora@shop.test"; role = staff }

abbrev requests : List TeamRequest
requests =
    record { auth = clerk; readings = early; command = change_role 31 staff }
    ∷ record { auth = clerk; readings = early; command = remove 30 }
    ∷ record { auth = guest; readings = early; command = accept "Cy" pending }
    ∷ record { auth = clerk; readings = early; command = issue "token" dora }
    ∷ []

shop-IsTeam : IsTeam 1 shop
unfolding count has_id is_user is_owner in_organization role_eq
shop-IsTeam = record {
  unique_ids = λ id. ground arith;
  fresh_ids = λ id l. ground arith;
  one_each = λ o u. ground arith;
  has_owner = omega arith;
}

serve_team-IsTeam_example : IsTeam 1 (serve_team same same requests shop)
serve_team-IsTeam_example = serve_team-IsTeam same same 1 requests shop shop-IsTeam

accept_in_transaction-Joined_example :
    Ensures (Joined 6 8 guest pending shop) (accept_in_transaction 6 8 guest "Cy" pending shop)
accept_in_transaction-Joined_example = accept_in_transaction-Joined 6 8 guest "Cy" pending shop

accept_once_example :
    Ensures
      (λ _ t. accept_in_transaction 10 11 guest "Cy" pending t ≡ err invitation_already_accepted)
      (accept_in_transaction 6 8 guest "Cy" pending shop)
accept_once_example = accept_once 6 8 10 11 guest guest "Cy" "Cy" pending shop

invite-IsInvited_example :
    Ensures
      (λ res t.
        (m : MembershipContext) × (clerk.membership ≡ some m)
        × IsInvited early clerk m.organization "dora@shop.test" staff "token" shop res t)
      (invite same same early clerk "token" dora shop)
invite-IsInvited_example = invite-IsInvited same same early clerk "token" dora shop

paid_plan_iff_example : (effective_plan_in_transaction 1 shop ≡ ok (pro, shop)) ↔ (
    (is_demo_organization 1 shop ≡ true)
    ⊎ ((x : Subscription) × (find_subscription 1 shop ≡ some x)
        × (x.plan ≡ pro)
        × ((x.status ≡ active) ⊎ (x.status ≡ trialing))))
paid_plan_iff_example = paid_plan_iff 1 shop

abbrev print : Json → String
print (string t) = t
print _ = "json"

abbrev in_order : String → String → Bool
in_order a b = true

abbrev order_request : IdempotentRequest
order_request = record {
  key = "k1";
  organization = 1;
  payload = string "five";
  response_status = 201;
  scope = "receipts";
}

abbrev executed : Store
executed = record shop {
  idempotency_records =
      record {
        organization = 1;
        scope = "receipts";
        key = "k1";
        fingerprint = "five";
        response_body = "done";
        response_status = 201;
        expires_at = 86400009;
      }
      ∷ [];
}

-- A request under another key, between the two.
abbrev between : List (KeyedCall in_order print same)
between =
    record {
      now = 20;
      created = 21;
      request = record order_request { key = "k2" };
      work = pure "x";
    }
    ∷ []

executed_once_example :
    execute_idempotent in_order print same 100 101 order_request
      (pure "again")
      (call_all in_order print same between executed)
    ≡ ok (
      record { body = "done"; replayed = true; response_status = 201 },
      purge_expired 1 100 (call_all in_order print same between executed),
    )
unfolding execute_idempotent fingerprint_payload answer find_first purge_expired delete_where
    run_and_record create_record canonicalize
executed_once_example =
    executed_once in_order print same 8 9 100 101 order_request (string "five") 201 (pure "done")
      (pure "again") shop executed
      (record { body = "done"; replayed = false; response_status = 201 }) between refl refl
      (omega arith, λ s. refl, tt) (omega arith)
