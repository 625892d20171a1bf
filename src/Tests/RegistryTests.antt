-- ===== src/Tests/RegistryTests.antt =====
-- The registry of services with two plugins.
use waldur_core.Prelude.{◌≡◌, refl, false, none, some, List, [], ◌∷◌, any}
use waldur_core.Prelude.Text.{Text, codes, same_text}
use waldur_core.Structure.Registry.{Model}
use waldur_core.Structure.Registry.Lookups.{
  get_service_backend, get_resource_serializer, get_name_for_type,
}
use waldur_core.Structure.Registry.History.{
  Registration, backend, service, resource_serializer, resource_view, register_all, last_backend,
  get_service_backend-register_all,
}
use waldur_core.Structure.Registry.Serializers.{
  last_serializer, get_resource_serializer-register_all,
}

abbrev apps : List Text
apps = codes "waldur_gitlab" ∷ codes "waldur_core.openstack" ∷ []

abbrev gitlab : Model
gitlab = record {
  module_name = codes "waldur_gitlab.models";
  service_name = "GitLab";
  model_str = "gitlab.gitlabservice";
  class_name = "GitLabService";
  url_name = "gitlab";
  abstract = false;
}

abbrev group : Model
group = record gitlab {
  model_str = "gitlab.group";
  class_name = "Group";
  url_name = "gitlab-group";
}

-- Its application is not installed.
abbrev jira : Model
jira = record gitlab { module_name = codes "waldur_jira.models"; service_name = "JIRA" }

abbrev registrations : List Registration
registrations =
    resource_serializer (some group) 11
    ∷ backend gitlab 5 false
    ∷ backend jira 6 false
    ∷ service (some gitlab)
    ∷ resource_view (some group) 12
    ∷ []

get_service_backend-register_all_example :
    get_service_backend "GitLab" (register_all apps registrations [])
    ≡ last_backend apps "GitLab" registrations none
unfolding get_service_backend
get_service_backend-register_all_example =
    get_service_backend-register_all apps "GitLab" registrations []

get_resource_serializer-register_all_example :
    get_resource_serializer group (register_all apps registrations [])
    ≡ last_serializer apps group registrations none
unfolding get_resource_serializer
get_resource_serializer-register_all_example =
    get_resource_serializer-register_all apps group registrations []

-- The registrations above, looked up.
names : get_name_for_type "GitLab" (register_all apps registrations []) ≡ "GitLab"
unfolding get_name_for_type register_all any same_text
names = refl
