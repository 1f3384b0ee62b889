-- ===== src/Tests/Databases.antt =====
-- The theorems on GormStore, over a database that keeps its connections in a list.
use wireguard_babeld_igp.Base.{◌≡◌, refl, arith, none, some, List, [], ◌∷◌, ◌++◌}
use wireguard_babeld_igp.Base.Int.{ℤ, pos, int_key, ℤ_discrete, ◌<ℤ◌, max_int, inc}
use wireguard_babeld_igp.Data.Map.Range.{length}
use wireguard_babeld_igp.Errors.{Result, ok, err, record_not_found, is_not_found}
use wireguard_babeld_igp.Types.{WireguardConnection}
use wireguard_babeld_igp.Store.Gorm.{Query, Table, Database}
use wireguard_babeld_igp.Store.Gorm.Connections.{
  get_or_create, by_pair_or_create, found_or_create, create_connection, create_above, inserted,
  next_port,
}
use wireguard_babeld_igp.Store.Gorm.Links.{
  ServesAll, IsTable, Creates, first_of, or_not_found, top_of, largest, ledger, wanted, serve,
  Accepts, AreServed,
}
use wireguard_babeld_igp.Store.Gorm.Links.Refines.{AreNumbered, serve-ServesAll}
use wireguard_babeld_igp.Store.Gorm.Links.Distinct.{IsDistinct, serve-IsDistinct}

abbrev Rows : Type 0
Rows = List WireguardConnection

abbrev nothing : {X : Type 0} → Query X Rows
nothing = record { first = λ p d. err record_not_found; find = λ d. ok [] }

abbrev empty_table : {X : Type 0} → Table X Rows
empty_table = record {
  query = nothing;
  create = λ x d. (x, (none, d));
  save = λ x d. (none, d);
  updates = λ p x d. (ok 0, d);
  delete = λ p d. (ok 0, d);
  count = λ p d. ok 0;
}

abbrev numbered : WireguardConnection → Rows → WireguardConnection
numbered c d = record c { id = pos (length d) }

abbrev connections : Table WireguardConnection Rows
connections = record empty_table {
  query = record { first = λ p d. or_not_found (first_of p d); find = λ d. ok d };
  create = λ c d. (numbered c d, (none, d ++ (numbered c d ∷ [])));
}

abbrev database : Database Rows
database = record {
  auto_migrate = λ d. (none, d);
  users = empty_table;
  tasks = empty_table;
  nodes = empty_table;
  nodes_with_status = nothing;
  statuses = empty_table;
  connections = connections;
  max_port = λ d. ok (top_of d);
}

database-IsTable : IsTable database (λ d. d)
unfolding Creates
database-IsTable = record {
  first = λ p d. refl;
  max = λ d. refl;
  create = λ c d. (refl, refl, refl, refl);
}

abbrev requests : List (ℤ × ℤ)
requests = (pos 1, pos 2) ∷ (pos 2, pos 1) ∷ (pos 1, pos 3) ∷ []

requests_numbered : AreNumbered requests
requests_numbered = ((λ e. cc), (λ e. cc), ((λ e. cc), (λ e. cc), ((λ e. cc), (λ e. cc), tt)))

abbrev base : ℤ
base = pos 36420

abbrev ends : List (Result ℤ) × Rows
ends = serve database (λ d. d) base requests []

serve_requests : ends.0 ≡ ok (pos 36420) ∷ ok (pos 36420) ∷ ok (pos 36421) ∷ []
unfolding serve get_or_create by_pair_or_create found_or_create create_connection create_above
    inserted next_port first_of top_of largest inc ℤ_discrete is_not_found
serve_requests = refl

serve-ServesAll_example :
    ServesAll base (ledger database (λ d. d) []) requests ends.0 (ledger database (λ d. d) ends.1)
    × (Accepts database (λ d. d) → AreServed ends.0)
serve-ServesAll_example =
    serve-ServesAll database (λ d. d) database-IsTable base requests [] requests_numbered

ends_low : (ledger database (λ d. d) ends.1).top <ℤ pos max_int
unfolding serve get_or_create by_pair_or_create found_or_create create_connection create_above
    inserted next_port first_of top_of largest inc ℤ_discrete is_not_found
ends_low = omega arith

none-IsDistinct : IsDistinct (ledger database (λ d. d) [])
unfolding first_of top_of
none-IsDistinct = record {
  below = λ x y p e. cc;
  one = λ x y u v p e f. cc;
  top_IsInt = omega arith;
}

serve-IsDistinct_example : IsDistinct (ledger database (λ d. d) ends.1)
serve-IsDistinct_example =
    serve-IsDistinct base (omega arith) database (λ d. d) database-IsTable requests []
      requests_numbered ends_low none-IsDistinct

abbrev first_call : Result WireguardConnection × Rows
first_call = get_or_create database (some (wanted (pos 2) (pos 1))) base []

abbrev made : WireguardConnection
made = record (wanted (pos 2) (pos 1)) { id = pos 0; port = base }

first_call_ok : first_call ≡ (ok made, made ∷ [])
unfolding get_or_create by_pair_or_create found_or_create create_connection create_above inserted
    next_port first_of top_of largest inc ℤ_discrete is_not_found
first_call_ok = refl
