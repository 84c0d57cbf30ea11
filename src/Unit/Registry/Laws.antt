-- ===== src/Unit/Registry/Laws.antt =====
-- The registry (pkg/unit/registry.go) under any sequence of calls.
use ai_inference_managed_by.Base.{
  if-holds, suc, ◌≡◌, refl, String, Bool, List, [], ◌∷◌, Option, none, some, if◌then◌else◌, arith,
  ◌==◌, Nodup, eq_iff,
}
use ai_inference_managed_by.Unit.Registry.{
  get_command, command_already_registered, RegistryError, Units, Registry, new_registry,
  register_command, register_query, register_resource, register_resource_factory,
  unregister_command, unregister_query, unregister_resource, get, a_command, command_count,
}
use ai_inference_managed_by.Base.Map.{
  Map, is_some, lookup, insert, delete, keys, lookup-insert, lookup-delete, Nodup-keys-insert,
  Nodup-keys-delete, length-insert,
}

module _ {V : Type 0} (name : V → String) where
  -- Every unit of a map stands under its own name, and each name once.
  pub record IsTable (m : Map V) : Type 0 where
    pub once : Nodup (keys m)
    pub named : (k : String) (v : V) → lookup k m ≡ some v → name v ≡ k

  insert-named :
      (v : V) (m : Map V)
      → ((k : String) (w : V) → lookup k m ≡ some w → name w ≡ k)
      → (k : String) (w : V) → lookup k (insert (name v) v m) ≡ some w
      → name w ≡ k
  insert-named v m named k w h =
      ground (arith, lookup-insert (name v) k v m, named k w, eq_iff (name v) k)

  delete-named :
      (j : String) (m : Map V)
      → ((k : String) (w : V) → lookup k m ≡ some w → name w ≡ k)
      → (k : String) (w : V) → lookup k (delete j m) ≡ some w
      → name w ≡ k
  delete-named j m named k w h = ground (arith, lookup-delete j k m, named k w)

  insert-IsTable : (v : V) (m : Map V) → IsTable m → IsTable (insert (name v) v m)
  insert-IsTable v m t = record {
    once = Nodup-keys-insert (name v) v m t.once;
    named = insert-named v m t.named;
  }

  delete-IsTable : (k : String) (m : Map V) → IsTable m → IsTable (delete k m)
  delete-IsTable k m t = record {
    once = Nodup-keys-delete k m t.once;
    named = delete-named k m t.named;
  }

  empty-IsTable : IsTable []
  unfolding lookup
  empty-IsTable = record { once = tt; named = λ k v e. ground arith }

module _ (u : Units) where
  open u use {Command, Query, Resource, Factory, command_name, query_name, resource_uri}

  pub record IsValid (r : Registry u) : Type 0 where
    pub command_table : IsTable command_name r.commands
    pub query_table : IsTable query_name r.queries
    pub resource_table : IsTable resource_uri r.resources

  -- One call that changes the registry.
  pub data Call : Type 0 where
    add_command : Option Command → Call
    add_query : Option Query → Call
    add_resource : Option Resource → Call
    add_factory : Option Factory → Call
    drop_command drop_query drop_resource : String → Call

  unfoldable pub after : Call → Registry u → Registry u
  unfolding register_command register_query register_resource register_resource_factory
      unregister_command unregister_query unregister_resource
  after (add_command c) r = (register_command u c r).1
  after (add_query q) r = (register_query u q r).1
  after (add_resource res) r = (register_resource u res r).1
  after (add_factory f) r = (register_resource_factory u f r).1
  after (drop_command k) r = (unregister_command u k r).1
  after (drop_query k) r = (unregister_query u k r).1
  after (drop_resource k) r = (unregister_resource u k r).1

  unfoldable pub after_all : List Call → Registry u → Registry u
  after_all [] r = r
  after_all (c ∷ cs) r = after_all cs (after c r)

  after-IsValid : (c : Call) (r : Registry u) → IsValid r → IsValid (after c r)
  unfolding after register_command register_query register_resource register_resource_factory
      unregister_command unregister_query unregister_resource
  after-IsValid (add_command none) r v = v
  after-IsValid (add_query none) r v = v
  after-IsValid (add_resource none) r v = v
  after-IsValid (add_factory none) r v = v
  after-IsValid (add_factory (some f)) r v = record {
    command_table = v.command_table;
    query_table = v.query_table;
    resource_table = v.resource_table;
  }
  after-IsValid (add_command (some c)) r v =
      if-holds (λ (p : Option RegistryError × Registry u). IsValid p.1)
        (is_some (lookup (command_name c) r.commands)) _ _ v
        (record {
          command_table = insert-IsTable command_name c r.commands v.command_table;
          query_table = v.query_table;
          resource_table = v.resource_table;
        })
  after-IsValid (add_query (some q)) r v =
      if-holds (λ (p : Option RegistryError × Registry u). IsValid p.1)
        (is_some (lookup (query_name q) r.queries)) _ _ v
        (record {
          command_table = v.command_table;
          query_table = insert-IsTable query_name q r.queries v.query_table;
          resource_table = v.resource_table;
        })
  after-IsValid (add_resource (some res)) r v =
      if-holds (λ (p : Option RegistryError × Registry u). IsValid p.1)
        (is_some (lookup (resource_uri res) r.resources)) _ _ v
        (record {
          command_table = v.command_table;
          query_table = v.query_table;
          resource_table = insert-IsTable resource_uri res r.resources v.resource_table;
        })
  after-IsValid (drop_command k) r v =
      if-holds (λ (p : Bool × Registry u). IsValid p.1) (is_some (lookup k r.commands)) _ _
        (record {
          command_table = delete-IsTable command_name k r.commands v.command_table;
          query_table = v.query_table;
          resource_table = v.resource_table;
        })
        v
  after-IsValid (drop_query k) r v =
      if-holds (λ (p : Bool × Registry u). IsValid p.1) (is_some (lookup k r.queries)) _ _
        (record {
          command_table = v.command_table;
          query_table = delete-IsTable query_name k r.queries v.query_table;
          resource_table = v.resource_table;
        })
        v
  after-IsValid (drop_resource k) r v =
      if-holds (λ (p : Bool × Registry u). IsValid p.1) (is_some (lookup k r.resources)) _ _
        (record {
          command_table = v.command_table;
          query_table = v.query_table;
          resource_table = delete-IsTable resource_uri k r.resources v.resource_table;
        })
        v

  after_all-IsValid : (cs : List Call) (r : Registry u) → IsValid r → IsValid (after_all cs r)
  unfolding after_all
  after_all-IsValid [] r v = v
  after_all-IsValid (c ∷ cs) r v = after_all-IsValid cs (after c r) (after-IsValid c r v)

  -- Whatever calls are made on a new registry, every command, query and resource it holds stands
  -- under its own name, and no name stands twice in a map.
  pub after_all-new_registry-IsValid : (cs : List Call) → IsValid (after_all cs (new_registry u))
  after_all-new_registry-IsValid cs = after_all-IsValid cs (new_registry u) (record {
    command_table = empty-IsTable command_name;
    query_table = empty-IsTable query_name;
    resource_table = empty-IsTable resource_uri;
  })

  -- Registering a command under a name that no command has reports no error. `get` then returns the
  -- command for that name and for every other name what it returned before, and there is one command
  -- more.
  pub register_command-get :
      (c : Command) (r : Registry u)
      → lookup (command_name c) r.commands ≡ none
      → (register_command u (some c) r).0 ≡ none
        × ((k : String)
            → get u k (register_command u (some c) r).1
              ≡ (if command_name c == k then some (a_command c) else get u k r))
        × command_count u (register_command u (some c) r).1 ≡ suc (command_count u r)
  unfolding register_command get
  register_command-get c r new = (
    rw new refl,
    λ k. ground (arith, lookup-insert (command_name c) k c r.commands, eq_iff (command_name c) k),
    ground (arith, length-insert (command_name c) c r.commands),
  )

  -- Unregistering a command reports whether a command has that name, removes it and no other, and
  -- leaves queries, resources and factories as they are.
  pub unregister_command-lookup :
      (k : String) (r : Registry u)
      → (unregister_command u k r).0 ≡ is_some (get_command u k r)
        × ((j : String)
            → get_command u j (unregister_command u k r).1
              ≡ (if k == j then none else get_command u j r))
        × (unregister_command u k r).1.queries ≡ r.queries
        × (unregister_command u k r).1.resources ≡ r.resources
        × (unregister_command u k r).1.resource_factories ≡ r.resource_factories
  unfolding unregister_command
  unregister_command-lookup k r = (
    ground arith,
    λ j. ground (arith, lookup-delete k j r.commands, eq_iff k j),
    ground arith,
    ground arith,
    ground arith,
  )

  -- A command whose name is taken is refused, and the registry stays as it was.
  register_command-taken :
      (c d : Command) (r : Registry u)
      → lookup (command_name c) r.commands ≡ some d
      → register_command u (some c) r ≡ (some command_already_registered, r)
  unfolding register_command
  register_command-taken c d r e = rw e refl
