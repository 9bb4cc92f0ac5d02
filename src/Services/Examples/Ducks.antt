-- ===== src/Services/Examples/Ducks.antt =====
-- A definition of databases, two of its instances, and a client of one of them.
use wa8s.Prelude.{◌≡◌, ◌↔◌, String, true, List, [], ◌∷◌, ◌++◌, none, some}
use wa8s.Prelude.Int.{pos}
use wa8s.Reconcile.{is_true}
use wa8s.Trace.{Trace}
use wa8s.Services.Lifecycle.Children.{MergeMaps}
use wa8s.Services.Definition.{Definition}
use wa8s.Services.Definition.Steps.{Turn, sync_definition}
use wa8s.Services.Definition.Conditions.{IsInvalid, IsSettled, IsEstablished}
use wa8s.Services.Definition.Running.{sync_definition-starts_iff}
use wa8s.Services.Ducks.{InstanceDuck}
use wa8s.Services.Ducks.Clients.{ClientDuck}
use wa8s.Services.Ducks.Laws.{Made}
use wa8s.Services.Examples.Lifecycles.{given}

abbrev databases : Definition
databases = record {
  name = "databases";
  labels = [];
  group = "db.example.com";
  instance_names = record {
    plural = "databases";
    short_names = [];
    kind = "Database";
    categories = [];
  };
  client_names = record {
    plural = "databaseclients";
    short_names = [];
    kind = "DatabaseClient";
    categories = [];
  };
  lifecycle = given;
  marks = [];
}

abbrev turn : Turn
turn = record {
  lifecycle_error = none;
  lifecycle = some is_true;
  instance_error = none;
  instance_crd = some (("NamesAccepted", "True") ∷ ("Established", "True") ∷ []);
  client_error = none;
  client_crd = some (("Established", "True") ∷ []);
  duck_error = none;
  duck = some is_true;
  manager = none;
}

sync_definition-starts_iff_example : ((sync_definition turn databases).started ≡ true) ↔ (
    (IsInvalid none × IsSettled none)
    × (IsEstablished none turn.instance_crd × IsEstablished none turn.client_crd))
sync_definition-starts_iff_example = sync_definition-starts_iff turn databases

-- The entries of the later map come first, so that they are the ones that are read.
abbrev merge : MergeMaps
merge = λ a b. b ++ a

abbrev same_case : String → String
same_case = λ s. s

abbrev duck : String → InstanceDuck
duck name = record {
  namespace = "apps";
  name = name;
  labels = ("app", "shop") ∷ [];
  group = "db.example.com";
  kind = "Database";
  type = "small";
  tier = "";
  requests = [];
  service_instance_id = "";
  marks = [];
}

abbrev made : List Made
made =
    record {
      definition = "databases";
      duck = duck "orders";
      lifecycle = "databases-x1";
      name = "orders-a";
    }
    ∷ record {
      definition = "databases";
      duck = duck "users";
      lifecycle = "databases-x1";
      name = "users-b";
    }
    ∷ []

abbrev client : ClientDuck
client = record {
  namespace = "apps";
  name = "shop";
  uid = "uid-shop";
  labels = [];
  group = "db.example.com";
  kind = "DatabaseClient";
  spec = record {
    ref = record { name = "users" };
    scopes = [];
    duration = pos 0;
    renew_before = pos 0;
    renew_before_percentage = pos 0;
  };
  status = record {
    image = "";
    service_binding_id = "";
    binding = "";
    renews_after = pos 0;
    expires_after = pos 0;
  };
  trace = Trace.nil;
  marks = [];
}
