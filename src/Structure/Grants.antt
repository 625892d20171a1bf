-- ===== src/Structure/Grants.antt =====
-- `BasePermissionViewSet` of waldur_core/structure/views.py with the checks of `CustomerPermissionSerializer`
-- and `ProjectPermissionSerializer` of structure/serializers.py, on one customer with one project, and
-- `change_customer_nc_users_quota` of structure/handlers.py, which counts the users of the customer.
pub mod Lasting
pub mod Ends
pub mod Requests
pub mod Errors
pub mod Distinct
pub mod Users
pub mod Counted
pub mod Limited
pub mod Bounded
use waldur_core.Prelude.{
  ℕ, Bool, true, false, not, ◌&&◌, ◌||◌, Option, none, some, List, [], ◌∷◌, ◌++◌, String, map,
  filter, find, mem, length, if◌then◌else◌, ltb, leb, ◌==◌, Method, Outcome, returned, raised, pure,
  raise, raise_if, modify, gets, ◌>>=◌, ◌>>◌,
}
use waldur_core.Prelude.Int.{pos}
use waldur_core.Structure.Permissions.{
  Permission, Structure, Timestamp, now, permanent, at, is_true, is_active_of, has_role, has_user,
  add_user, remove_user, AddedUser,
}
use waldur_core.Structure.Access.{User, Project, customer_can_manage_role, project_can_manage_role}
use waldur_core.Quotas.Table
use waldur_core.Quotas.Table.{Table, validate_quota_change, set_quota_usage}

-- The scope of a permission: the customer or the project.
pub data Scope : Type 0 where
  in_customer in_project : Scope

pub data GrantError : Type 0 where
  invalid_expiration not_unique permission_denied not_found : GrantError
  quota_error : Table.Error → GrantError

-- A customer with its number in the table of quotas, its project, and the updates that were signalled.
pub record Scopes : Type 0 where
  pub number : ℕ
  pub customer : Structure
  pub project : Structure
  pub quotas : Table
  pub updated : List (ℕ × String)

abbrev pub GrantView : Type 0 → Type 0
GrantView A = Method Scopes GrantError A

unfoldable pub structure_of : Scope → Scopes → Structure
structure_of in_customer w = w.customer
structure_of in_project w = w.project

unfoldable pub put_structure : Scope → Structure → Scopes → Scopes
put_structure in_customer s w = record w { customer = s }
put_structure in_project s w = record w { project = s }

-- `can_manage_role` of the customer or the project.
unfoldable pub can_manage_role : Bool → User → Scope → String → Timestamp → Scopes → Bool
can_manage_role owners_can_manage_owners user in_customer role timestamp w =
    customer_can_manage_role owners_can_manage_owners user timestamp w.customer
can_manage_role owners_can_manage_owners user in_project role timestamp w =
    project_can_manage_role user role timestamp
      (record { structure = w.project; customer = w.customer })

-- The argument `timestamp` for an expiration time, `None` included.
abbrev pub timestamp_of : Option ℕ → Timestamp
timestamp_of none = permanent
timestamp_of (some t) = at t

unfoldable pub active_users : Structure → List ℕ
unfolding is_true
active_users s = map (λ p. p.user) (filter (λ p. is_true p.is_active) s.permissions)

unfoldable pub distinct : List ℕ → List ℕ
distinct [] = []
distinct (x ∷ xs) = let rest = distinct xs in if mem x rest then rest else x ∷ rest

-- `Customer.get_users`, without their order.
unfoldable pub get_users : Scopes → List ℕ
unfolding active_users distinct
get_users w = distinct (active_users w.customer ++ active_users w.project)

-- A call on the quotas.
unfoldable pub with_quotas :
    Outcome Table.Error (Unit {0}) × Table → Scopes → Outcome GrantError (Unit {0}) × Scopes
with_quotas (returned a, quotas) w = (returned a, record w { quotas = quotas })
with_quotas (raised e, quotas) w = (raised (quota_error e), record w { quotas = quotas })

-- `change_customer_nc_users_quota`
unfoldable pub change_customer_nc_users_quota : GrantView (Unit {0})
unfolding with_quotas get_users
change_customer_nc_users_quota w =
    with_quotas
      (set_quota_usage false w.number "nc_user_count" (pos (length (get_users w))) w.quotas) w

-- `transaction.atomic`
unfoldable pub atomic_result :
    Scopes → Outcome GrantError (Unit {0}) × Scopes → Outcome GrantError (Unit {0}) × Scopes
atomic_result before (returned a, w) = (returned a, w)
atomic_result before (raised e, w) = (raised e, before)

-- The handler runs if a row was created.
unfoldable pub signal_granted : Bool → GrantView (Unit {0})
unfolding change_customer_nc_users_quota
signal_granted true = change_customer_nc_users_quota
signal_granted false = pure tt

-- `scope.add_user` with the handlers of its signal.
unfoldable pub grant_role : Scope → ℕ → String → ℕ → Option ℕ → GrantView (Unit {0})
unfolding structure_of put_structure signal_granted atomic_result
grant_role scope user role created_by expiration_time w =
    let ((permission, created), s) =
      add_user user role (some created_by) expiration_time (structure_of scope w) in
    atomic_result w (signal_granted created (put_structure scope s w))

-- The handler runs for each row that was affected.
unfoldable pub signal_revoked : List Permission → GrantView (Unit {0})
unfolding change_customer_nc_users_quota
signal_revoked [] = pure tt
signal_revoked (p ∷ ps) = change_customer_nc_users_quota >> signal_revoked ps

-- `scope.remove_user` with the handlers of its signal.
unfoldable pub revoke_role : ℕ → Scope → ℕ → String → ℕ → GrantView (Unit {0})
unfolding structure_of put_structure signal_revoked atomic_result is_active_of has_role
revoke_role moment scope user role removed_by w =
    let affected =
      filter (λ p. is_active_of user p && has_role (some role) p)
        (structure_of scope w).permissions in
    let s = remove_user moment user (some role) (some removed_by) (structure_of scope w) in
    atomic_result w (signal_revoked affected (put_structure scope s w))

-- `validate_expiration_time`: `value < timezone.now()`.
unfoldable pub is_past : ℕ → Option ℕ → Bool
is_past moment none = false
is_past moment (some t) = ltb t moment

unfoldable pub raise_quota : Outcome Table.Error (List String) → GrantView (Unit {0})
raise_quota (returned errors) = pure tt
raise_quota (raised e) = raise (quota_error e)

-- The check of the quota of users, for a user who is not connected to the customer yet.
unfoldable pub check_user_quota : ℕ → GrantView (Unit {0})
unfolding get_users raise_quota
check_user_quota user w =
    if mem user (get_users w)
    then pure tt w
    else raise_quota
        (validate_quota_change w.number (("nc_user_count", pos 1) ∷ []) true w.quotas).0 w

-- `create`: the serializer's checks, `perform_create`, and the serializer's `create`.
unfoldable pub create_permission :
    Bool → User → ℕ → Scope → ℕ → String → Option ℕ → GrantView (Unit {0})
unfolding can_manage_role is_past check_user_quota structure_of grant_role
create_permission owners_can_manage_owners by moment scope user role expiration_time w =
    if is_past moment expiration_time
    then raise invalid_expiration w
    else if has_user user none now (structure_of scope w)
    then raise not_unique w
    else if not
        (can_manage_role owners_can_manage_owners by scope role (timestamp_of expiration_time) w)
    then raise permission_denied w
    else (check_user_quota user >> grant_role scope user role by.id expiration_time) w

-- The row in force that a request names.
unfoldable pub get_permission : Scope → ℕ → String → Scopes → Option Permission
unfolding structure_of is_active_of has_role
get_permission scope user role w =
    find (λ p. is_active_of user p && has_role (some role) p) (structure_of scope w).permissions

-- The expiration time of a row, which is the only field that can change.
unfoldable pub set_expiration : ℕ → String → Option ℕ → Structure → Structure
unfolding is_active_of has_role
set_expiration user role expiration_time s = record s {
  permissions =
      map
        (λ p.
          if is_active_of user p && has_role (some role) p
          then record p { expiration_time = expiration_time }
          else p)
        s.permissions;
}

unfoldable pub same_time : Option ℕ → Option ℕ → Bool
same_time none none = true
same_time none (some b) = false
same_time (some a) none = false
same_time (some a) (some b) = a == b

-- The expiration time of a request, if it gives one; `None` is one too.
abbrev pub Requested : Type 0
Requested = Option (Option ℕ)

-- `validated_data.get('expiration_time')`
unfoldable pub requested_time : Requested → Option ℕ
requested_time none = none
requested_time (some expiration_time) = expiration_time

-- `serializer.save()`, which leaves a field that the request does not give.
unfoldable pub save_expiration : ℕ → String → Requested → Structure → Structure
unfolding set_expiration
save_expiration user role none s = s
save_expiration user role (some expiration_time) s = set_expiration user role expiration_time s

-- `perform_update`
unfoldable pub update_permission_row :
    Bool → User → Scope → ℕ → String → Requested → Permission → GrantView (Unit {0})
unfolding can_manage_role same_time requested_time save_expiration structure_of put_structure
update_permission_row owners_can_manage_owners by scope user role request p w =
    let expiration_time = requested_time request in
    if same_time expiration_time p.expiration_time
    then pure tt w
    else if not
        (can_manage_role owners_can_manage_owners by scope p.role (timestamp_of expiration_time) w)
    then raise permission_denied w
    else let s = save_expiration user role request (structure_of scope w) in
      let v = put_structure scope s w in
      pure tt (record v { updated = v.updated ++ (user, role) ∷ [] })

-- `update`: the row, the serializer's check, and `perform_update`.
unfoldable pub update_found :
    Bool → User → ℕ → Scope → ℕ → String → Requested → Option Permission → GrantView (Unit {0})
unfolding is_past requested_time update_permission_row
update_found owners_can_manage_owners by moment scope user role request none = raise not_found
update_found owners_can_manage_owners by moment scope user role request (some p) = do
  raise_if (is_past moment (requested_time request)) invalid_expiration
  update_permission_row owners_can_manage_owners by scope user role request p

unfoldable pub update_permission :
    Bool → User → ℕ → Scope → ℕ → String → Requested → GrantView (Unit {0})
unfolding update_found get_permission
update_permission owners_can_manage_owners by moment scope user role request w =
    update_found owners_can_manage_owners by moment scope user role request
      (get_permission scope user role w) w

unfoldable pub destroy_found :
    Bool → User → ℕ → Scope → ℕ → String → Option Permission → GrantView (Unit {0})
unfolding can_manage_role revoke_role
destroy_found owners_can_manage_owners by moment scope user role none w = raise not_found w
destroy_found owners_can_manage_owners by moment scope user role (some p) w =
    if not
      (can_manage_role owners_can_manage_owners by scope p.role (timestamp_of p.expiration_time) w)
    then raise permission_denied w
    else revoke_role moment scope user role by.id w

-- `destroy` and `perform_destroy`
unfoldable pub destroy_permission : Bool → User → ℕ → Scope → ℕ → String → GrantView (Unit {0})
unfolding destroy_found get_permission
destroy_permission owners_can_manage_owners by moment scope user role w =
    destroy_found owners_can_manage_owners by moment scope user role
      (get_permission scope user role w) w
