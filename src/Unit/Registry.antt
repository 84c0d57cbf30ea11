-- ===== src/Unit/Registry.antt =====
-- Registry of pkg/unit/registry.go: three maps and a list of factories. A unit is a value of a type
-- that the interfaces leave open; a nil argument is `none`. The mutex makes each method one step.
pub mod Laws
use ai_inference_managed_by.Base.{
  ℕ, String, Bool, true, false, ◌&&◌, List, [], ◌∷◌, ◌++◌, Option, none, some, if◌then◌else◌,
  length,
}
use ai_inference_managed_by.Base.Map.{Map, is_some, lookup, insert, delete, values}

pub data RegistryError : Type 0 where
  command_already_registered query_already_registered resource_already_registered : RegistryError
  command_not_found query_not_found resource_not_found : RegistryError

-- The interfaces Command, Query, Resource and ResourceFactory, as far as the registry calls them.
pub record Units : Type 1 where
  pub Command : Type 0
  pub Query : Type 0
  pub Resource : Type 0
  pub Factory : Type 0
  pub command_name : Command → String
  pub query_name : Query → String
  pub resource_uri : Resource → String
  pub can_create : Factory → String → Bool
  -- Create: `none` for an error or a nil resource
  pub create : Factory → String → Option Resource

module _ (u : Units) where
  open u use {
    Command, Query, Resource, Factory, command_name, query_name, resource_uri, can_create, create,
  }

  pub record Registry : Type 0 where
    pub commands : Map Command
    pub queries : Map Query
    pub resources : Map Resource
    pub resource_factories : List Factory

  -- NewRegistry
  abbrev pub new_registry : Registry
  new_registry = record { commands = []; queries = []; resources = []; resource_factories = [] }

  unfoldable pub register_command : Option Command → Registry → Option RegistryError × Registry
  register_command none r = (some command_not_found, r)
  register_command (some cmd) r =
      let name = command_name cmd in
      if is_some (lookup name r.commands)
      then (some command_already_registered, r)
      else (none, record r { commands = insert name cmd r.commands })

  unfoldable pub register_query : Option Query → Registry → Option RegistryError × Registry
  register_query none r = (some query_not_found, r)
  register_query (some q) r =
      let name = query_name q in
      if is_some (lookup name r.queries)
      then (some query_already_registered, r)
      else (none, record r { queries = insert name q r.queries })

  unfoldable pub register_resource : Option Resource → Registry → Option RegistryError × Registry
  register_resource none r = (some resource_not_found, r)
  register_resource (some res) r =
      let uri = resource_uri res in
      if is_some (lookup uri r.resources)
      then (some resource_already_registered, r)
      else (none, record r { resources = insert uri res r.resources })

  unfoldable pub register_resource_factory :
      Option Factory → Registry → Option RegistryError × Registry
  register_resource_factory none r = (some resource_not_found, r)
  register_resource_factory (some f) r =
      (none, record r { resource_factories = r.resource_factories ++ f ∷ [] })

  abbrev pub get_command : String → Registry → Option Command
  get_command name r = lookup name r.commands

  abbrev pub get_query : String → Registry → Option Query
  get_query name r = lookup name r.queries

  abbrev pub get_resource : String → Registry → Option Resource
  get_resource uri r = lookup uri r.resources

  -- The loop over the factories.
  unfoldable pub try_factories : String → List Factory → Option Resource
  try_factories uri [] = none
  try_factories uri (f ∷ fs) =
      let rest = try_factories uri fs in
      if can_create f uri then elim (create f uri) [ some res ↦ some res | none ↦ rest ] else rest

  unfoldable pub get_resource_with_factory : String → Registry → Option Resource
  unfolding try_factories
  get_resource_with_factory uri r = elim (lookup uri r.resources) [
    | some res ↦ some res
    | none ↦ try_factories uri r.resource_factories
  ]

  -- The lists, in the order in which the maps are ranged over.
  abbrev pub list_commands : Registry → List Command
  list_commands r = values r.commands

  abbrev pub list_queries : Registry → List Query
  list_queries r = values r.queries

  abbrev pub list_resources : Registry → List Resource
  list_resources r = values r.resources

  abbrev pub list_resource_factories : Registry → List Factory
  list_resource_factories r = r.resource_factories

  -- A unit of any kind.
  pub data AnyUnit : Type 0 where
    a_command : Command → AnyUnit
    a_query : Query → AnyUnit
    a_resource : Resource → AnyUnit

  unfoldable pub get : String → Registry → Option AnyUnit
  get name r = elim (lookup name r.commands) [
    | some cmd ↦ some (a_command cmd)
    | none ↦ elim (lookup name r.queries) [
      | some q ↦ some (a_query q)
      | none ↦ elim (lookup name r.resources) [ some res ↦ some (a_resource res) | none ↦ none ]
    ]
  ]

  unfoldable pub unregister_command : String → Registry → Bool × Registry
  unregister_command name r =
      if is_some (lookup name r.commands)
      then (true, record r { commands = delete name r.commands })
      else (false, r)

  unfoldable pub unregister_query : String → Registry → Bool × Registry
  unregister_query name r =
      if is_some (lookup name r.queries)
      then (true, record r { queries = delete name r.queries })
      else (false, r)

  unfoldable pub unregister_resource : String → Registry → Bool × Registry
  unregister_resource uri r =
      if is_some (lookup uri r.resources)
      then (true, record r { resources = delete uri r.resources })
      else (false, r)

  abbrev pub command_count : Registry → ℕ
  command_count r = length r.commands

  abbrev pub query_count : Registry → ℕ
  query_count r = length r.queries

  abbrev pub resource_count : Registry → ℕ
  resource_count r = length r.resources
