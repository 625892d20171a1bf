-- ===== src/Lib.antt =====
-- Waldur Core: a model of the parts of a multi-tenant resource manager that decide what happens to
-- resources, roles, invitations, quotas and consumption, and theorems about them.
--
-- The program is a Django application. Its models keep the state in a database, views and periodic
-- tasks change it, and executors run tasks of Celery on resources. A method that writes and may raise
-- is a function from the state to an outcome and a state (Prelude/Methods): what was written before
-- the exception is there after it, as in the source, which opens a transaction only in a few places;
-- of those that are modelled, Structure/Grants takes back what was written, and in the others nothing
-- raises after the first write.
--
-- The parts, with the code that each file models:
-- - Core/State: `StateMixin` of waldur_core/core/models.py, the states of a resource and the
--   transitions between them. `fire` is a call of a transition method, with no result where
--   django-fsm raises TransitionNotAllowed. Core/State/Reach is about sequences of transitions.
-- - Core/Tasks: the tasks of waldur_core/core/tasks.py on one instance (StateTransitionTask,
--   BackendMethodTask, ErrorStateTransitionTask, RecoverTask, DeletionTask, PollRuntimeStateTask).
--   The database holds the row of the instance, or none after a deletion, and whether another
--   process has changed the row in between. The backend's method is a parameter.
-- - Core/Executors: waldur_core/core/executors.py, with the callbacks that follow a task. Lifecycle
--   and Endings follow a whole execution. What `AsyncResult` has of the error of a task, which
--   Celery keeps or does not keep, is an argument.
-- - Core/Penalty: `BackgroundTask` and `PenalizedBackgroundTask` of waldur_core/core/tasks.py. The
--   cache is a map that may lose any entry at any time; MAX_PENALTY is 3, as in the source.
-- - Core/Ancestors: `get_ancestors` of `DescendantMixin` in waldur_core/core/models.py, over any graph of
--   parents. Its recursion is on fuel, and fuel above the rank of an object is enough.
-- - Core/Tokens: `TokenAuthentication` and `user_capturing_auth` of waldur_core/core/authentication.py, with
--   `RefreshTokenMixin` of core/views.py and `create_auth_token` of core/handlers.py, on the table of
--   tokens. Table, Header, Sliding, Refreshed and History are its lemmas and theorems.
-- - Core/Login: `ObtainAuthToken` of waldur_core/core/views.py, which gives the tokens of Core/Tokens. The cache
--   is an interface, with the laws of a cache that keeps an entry until its timeout.
-- - Core/Summary: `SummaryQuerySet` of waldur_core/core/managers.py. A queryset is the list of its rows, and
--   the loop of the merge recurses on the number of rows, which is enough, since a round gives a row.
-- - Structure/Permissions: `PermissionMixin`, `BasePermission` and its two models in
--   waldur_core/structure/models.py, with `check_expired_permissions` of structure/tasks.py. The
--   state is the list of permissions of one customer or project and the signals that were sent.
-- - Structure/Access: the role checks of waldur_core/structure/permissions.py and
--   `can_manage_role`, `can_user_update_quotas` of structure/models.py. Both use the roles of
--   Structure/Permissions.
-- - Structure/Grants: `BasePermissionViewSet` of waldur_core/structure/views.py with the checks of the
--   serializers of permissions, and `change_customer_nc_users_quota` of structure/handlers.py. It
--   uses Structure/Permissions for the roles, Structure/Access for the rights and Quotas/Table for
--   the quota of users.
-- - Users/Invitations: the model of waldur_core/users/models.py, the actions of
--   `InvitationViewSet` in users/views.py and `cancel_expired_invitations` of users/tasks.py, on one
--   invitation with its customer and project, whose roles it grants through `add_user`.
-- - Quotas/Table: `Quota` and `QuotaModelMixin` of waldur_core/quotas/models.py. The table has a row
--   for each scope and name; a limit of -1 is never exceeded.
-- - Quotas/Counters: `CounterQuotaField` and `TotalQuotaField` of waldur_core/quotas/fields.py with
--   the handler that `count_quota_handler_factory` of quotas/handlers.py makes. It changes the table
--   through `add_quota_usage`, with validation.
-- - Quotas/Aggregators: `AggregatorQuotaField`, `get_aggregator_quotas` and
--   `handle_aggregated_quotas`, which carry changes of a quota to the quotas of the ancestors.
-- - Quotas/Sums: `get_sum_of_quotas_for_querysets` and `_sum_dicts`.
-- - Quotas/Creation: `init_quotas`, `get_or_create_quota` and `get_sum_of_quotas_as_dict`.
-- - Cost/Consumption: `ConsumptionDetails` of waldur_core/cost_tracking/models.py, the dictionaries of
--   `ConsumableItem` that it keeps, and `_get_price` of `PriceEstimate`. The month of a moment is an
--   argument beside it.
-- - Cost/Estimates and Cost/Resources: `PriceEstimate` with its managers, and the handlers of
--   waldur_core/cost_tracking/handlers.py. The parents of estimates are a table of their own, and the bounds
--   of months, the scopes and the prices are the record Site. `create_ancestors` and
--   `collect_children` recurse on the depth of the graphs, which have four levels.
-- - Cost/Prices: default price list items and the items of services.
-- - Logging/Alerts: `Alert`, `AlertLogger` and the tasks on alerts of waldur_core/logging/tasks.py.
--   The table of alerts is the state; a scope is a number.
-- - Logging/Hooks: `process_event`, `check_event` and the hooks of waldur_core/logging/models.py, with
--   `get_permitted_objects_uuids`. What is sent is a list of messages.
-- - Structure/Pull: `update_pulled_fields` and the other functions of waldur_core/structure/utils.py on
--   pulled objects, and `BackgroundPullTask`, which uses the tasks' row of Core/Tasks.
-- - Structure/Links: the handlers of waldur_core/structure/handlers.py that connect customers,
--   services and projects, and `ConnectSharedSettingsTask`.
-- - Structure/Provisioning: the throttling of provisions in waldur_core/structure/tasks.py; a check and the
--   transition after it are one step.
-- - Structure/Registry: `SupportedServices` of waldur_core/structure/__init__.py, with the registrations that
--   plugins make. The registry is a dictionary; classes are numbers.
-- - Core/Utils: segments of time series, the serialization of instances and classes, and `clear_url`
--   of waldur_core/core/utils.py. Django's registry of models is an argument.
-- - Tests: concrete inputs.
-- - Prelude: Boolean tests, lists, methods that may raise, integers and text over native numbers.
--
-- Numbers: users, scopes, moments of time and sizes are natural numbers; limits, usages and prices, floats
-- in the source, are integers, so that nothing is said of rounding. The code is for Python 2, where
-- None is smaller than every number.
--
-- Fuel: `get_ancestors`, `create_ancestors` and `collect_children` recurse on the depth of their graphs,
-- the loop over past months on a number of months, of which those since the creation of the
-- resource are enough, and the merge of querysets on the number of their rows. All other recursion is
-- structural, on lists or on histories.
--
-- Histories (steps, Step and Steps) are sequences of calls in any order, each run to its end; two
-- requests that interleave within one method are not modelled, save for the change of a row by
-- another process that `state_transition` looks for.
--
-- Not modelled: Django's ORM, django-fsm, Celery, Redis and the plugins' backends, which are
-- parameters or appear as the state that they keep; REST views, serializers and filters but for
-- logins, invitations and permissions; the admin site and settings; the contexts and texts that
-- loggers compile; the saved details of deleted scopes; the calendar; monitoring.
pub mod Prelude
pub mod Core
pub mod Structure
pub mod Users
pub mod Quotas
pub mod Cost
pub mod Logging
mod Tests
